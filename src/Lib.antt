-- ===== src/Lib.antt =====
-- lib60870-C, an implementation of the telecontrol protocols IEC 60870-5-101 (serial lines) and
-- IEC 60870-5-104 (TCP). The files of the repository are named from its folder
-- lib60870-C/src/iec60870.
--
-- * Cs104 is the client of cs104/cs104_connection.c with its frames (cs104/cs104_frame.c):
--   Cs104/KBuffer is the ring of unconfirmed I frames and checkSequenceNumber, Cs104/Window its
--   specification, a sliding window, Cs104/Frame the APCI, Cs104/Connection the sending functions,
--   with checkMessage in Connection/Receive, handleTimeouts in Connection/Timeouts, opening and closing
--   in Connection/Establish, and in Connection/Peer what a plugin does through its IPeerConnection:
--   a plugin (Cs104/Plugin) is a parameter, a function to the calls that it makes, each of which
--   may depend on the answers before. Connection/Sending and Connection/Window say what all these do
--   to the window, and Connection/Reach takes it through any sequence of them. A function takes the
--   connection and returns the new one; what it writes to the socket is added to a log. The reading
--   of a clock is an argument; sending is given both clocks (Cs104/SystemTime), of which it stores
--   one. `release_loop` runs on as many rounds as the ring has
--   entries, which Cs104/KBuffer/Release proves to be enough.
-- * Cs104/Slave is the server of cs104/cs104_slave.c, of which HighPriorityQueue models the queue of
--   ASDUs that are sent before the events: a buffer of bytes with entries of any length.
--   HighPriorityQueue/Chain says which entries stand in the buffer, Fifo what the queue holds then,
--   Refine and Delivery take it through both operations, and Run through any sequence of them.
-- * LinkLayer is link_layer/link_layer.c: LinkLayer/Frame is SendFixedFrame and
--   SendVariableLengthFrame, LinkLayer/Parser the two functions that parse a message,
--   LinkLayer/SecondaryUnbalanced the station that a master polls, LinkLayer/SecondaryBalanced and
--   LinkLayer/PrimaryBalanced the two halves of a balanced station, LinkLayer/Stations the station
--   around them, and LinkLayer/PrimaryUnbalanced the master with its slaves. A function takes the
--   state and returns the new one; the frames sent are a list, the latest first. The functions of
--   the application layer and the handlers of state changes are arguments, and act on a state of
--   their own.
-- * Cs101/Asdu is the check of a received ASDU in cs101/cs101_asdu.c, which the client calls, and
--   Cs101/Queue the ring of ASDUs in cs101/cs101_queue.c: Queue/Refine relates it to a list, and
--   Queue/Run compares the answers of both. Cs101/BinaryCounterReading is cs101/cs101_bcr.c.
-- * Cs101/Objects is the information objects of cs101/cs101_information_objects.c with the functions
--   of cs101/cs101_asdu.c that put them into an ASDU and take them out. A type of objects is a
--   `Codec`: what its functions ask for, put and read. Objects/SinglePoints to Objects/Directories have the
--   types, and Objects/Table all of them with what they promise. Objects/Address and
--   Objects/Elements read back what was put, Objects/Reading finds an element among others,
--   Objects/Adding says what an ASDU holds after an object was added, Objects/Accepting which
--   objects it accepts, Objects/Limits how long it becomes, and Objects/Wire takes them through a message. Cs101/Header is the header
--   of an ASDU that a station makes, which Header/Sent takes to the other station.
-- * Apl/Time is the time stamp CP56Time2a of apl/cpXXtime2a.c: Time/Calendar compares my_mktime with
--   the Gregorian calendar, and Time/RoundTrip takes a time through the seven octets.
-- * Prelude has the names, tests, list and byte operations that all of them share.
--
-- A byte is a number, and the wrap-around of a C integer is written out. A handler that is not set
-- is a function that changes nothing. Not modelled are sockets, TLS, threads and locks, serial
-- ports and memory allocation: I/O, or calls of the operating system; nor, so far, the event queue
-- and the connections of the server, the master and the slave of CS 101, the file service, and, of
-- the information objects, file segments and the conversions of normalized and signed values.
pub mod Prelude
pub mod Apl
pub mod Cs101
pub mod Cs104
pub mod LinkLayer
