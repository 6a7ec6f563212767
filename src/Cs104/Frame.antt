-- ===== src/Cs104/Frame.antt =====
-- `T104Frame` of cs104_frame.c: the buffer in which a message of IEC 60870-5-104 is built, behind
-- room for the six bytes of the APCI.
use lib.Prelude.{ℕ, ◌+◌, ◌-◌, ◌*◌, ◌/◌, ◌%◌, List, [], ◌∷◌, set, replicate, length, take}
use lib.Prelude.Bytes.{u8}

pub record T104Frame : Type 0 where
  pub buffer : List ℕ
  pub msg_size : ℕ

-- `T104Frame_create`
unfoldable pub create : T104Frame
create = record { buffer = set (replicate 256 0) 0 0x68; msg_size = 6 }

-- `T104Frame_createEx` over storage that is given
unfoldable pub create_ex : List ℕ → T104Frame
create_ex storage = record { buffer = set storage 0 0x68; msg_size = 6 }

unfoldable pub reset_frame : T104Frame → T104Frame
reset_frame f = record f { msg_size = 6 }

-- `T104Frame_prepareToSend`: length, N(S) and N(R)
unfoldable pub prepare_to_send : T104Frame → ℕ → ℕ → T104Frame
prepare_to_send f send_counter receive_counter = record f { buffer = b5 }
  where
    b1 : List ℕ
    b1 = set f.buffer 1 (u8 (f.msg_size - 2))

    b2 : List ℕ
    b2 = set b1 2 (u8 (send_counter % 128 * 2))

    b3 : List ℕ
    b3 = set b2 3 (u8 (send_counter / 128))

    b4 : List ℕ
    b4 = set b3 4 (u8 (receive_counter % 128 * 2))

    b5 : List ℕ
    b5 = set b4 5 (u8 (receive_counter / 128))

unfoldable pub set_next_byte : T104Frame → ℕ → T104Frame
set_next_byte f byte = record { buffer = set f.buffer f.msg_size byte; msg_size = f.msg_size + 1 }

-- The loop of `T104Frame_appendBytes`: the bytes are written from `at` on.
unfoldable pub write_bytes : List ℕ → ℕ → List ℕ → List ℕ
write_bytes buffer at [] = buffer
write_bytes buffer at (x ∷ xs) = write_bytes (set buffer at x) (at + 1) xs

unfoldable pub append_bytes : T104Frame → List ℕ → T104Frame
unfolding write_bytes
append_bytes f bytes = record {
  buffer = write_bytes f.buffer f.msg_size bytes;
  msg_size = f.msg_size + length bytes;
}

-- `IEC60870_5_104_MAX_ASDU_LENGTH + IEC60870_5_104_APCI_LENGTH - msgSize`
unfoldable pub get_space_left : T104Frame → ℕ
get_space_left f = 249 + 6 - f.msg_size

-- What is written to the socket: the first `msgSize` bytes.
abbrev pub message : T104Frame → List ℕ
message f = take f.msg_size f.buffer
