-- ===== src/Cs104/KBuffer.antt =====
-- The k-buffer of cs104_connection.c: the ring of the I frames that were sent and are not yet
-- confirmed, with the functions that read and write it. An index of -1 is `none`.
pub mod Ring
pub mod Tracks
pub mod Release
pub mod Refine
pub mod Send
use lib.Prelude.{
  ℕ, zero, suc, ◌+◌, ◌-◌, ◌%◌, Bool, true, false, not, ◌&&◌, ◌||◌, Option, none, some, List, get_or,
  set, ltb, leb, ◌==◌, if◌then◌else◌,
}

-- `SentASDU`
pub record SentAsdu : Type 0 where
  pub sent_time : ℕ
  pub seq_no : ℕ

-- The fields `sentASDUs`, `maxSentASDUs`, `oldestSentASDU` and `newestSentASDU` of the connection.
pub record KBuffer : Type 0 where
  pub sent_asdus : List SentAsdu
  pub max_sent_asdus : ℕ
  pub oldest_sent_asdu : Option ℕ
  pub newest_sent_asdu : Option ℕ

abbrev pub no_asdu : SentAsdu
no_asdu = record { sent_time = 0; seq_no = 0 }

-- `self->sentASDUs[i]`
abbrev pub entry_at : KBuffer → ℕ → SentAsdu
entry_at b i = get_or b.sent_asdus i no_asdu

-- `(index + 1) % self->maxSentASDUs`, for an index that may be -1.
abbrev pub next_index : KBuffer → Option ℕ → ℕ
next_index b none = 0
next_index b (some i) = (i + 1) % b.max_sent_asdus

abbrev pub option_eq : Option ℕ → ℕ → Bool
option_eq none j = false
option_eq (some i) j = i == j

-- `isSentBufferFull`
unfoldable pub is_sent_buffer_full : KBuffer → Bool
is_sent_buffer_full b = elim b.oldest_sent_asdu [
  | none ↦ false
  | some oldest ↦ next_index b b.newest_sent_asdu == oldest
]

-- The writes of `sendIMessageAndUpdateSentASDUs` to the k-buffer.
unfoldable pub store_sent : KBuffer → SentAsdu → KBuffer
store_sent b e = elim b.oldest_sent_asdu [
  | none ↦ record b {
    sent_asdus = set b.sent_asdus 0 e;
    oldest_sent_asdu = some 0;
    newest_sent_asdu = some 0;
  }
  | some oldest ↦ record b {
    sent_asdus = set b.sent_asdus (next_index b b.newest_sent_asdu) e;
    newest_sent_asdu = some (next_index b b.newest_sent_asdu);
  }
]

-- The sequence number just before that of the oldest entry.
unfoldable pub oldest_valid_seq_no : ℕ → ℕ
oldest_valid_seq_no oldest_seq = if oldest_seq == 0 then 32767 else (oldest_seq - 1) % 32768

-- The tests that set `seqNoIsValid`, the k-buffer not being empty.
unfoldable pub seq_no_is_valid : ℕ → ℕ → ℕ → Bool
seq_no_is_valid oldest_seq newest_seq seq_no =
    (if leb oldest_seq newest_seq
      then leb oldest_seq seq_no && leb seq_no newest_seq
      else (leb oldest_seq seq_no || leb seq_no newest_seq))
    || (oldest_valid_seq_no oldest_seq == seq_no)

-- The `do … while (true)` loop, at the oldest entry `i`: the new `oldestSentASDU`. The outer
-- `none` means that the fuel ran out.
unfoldable pub release_loop : ℕ → KBuffer → Bool → ℕ → ℕ → ℕ → Option (Option ℕ)
release_loop zero b overflow oldest_valid seq_no i = none
release_loop (suc fuel) b overflow oldest_valid seq_no i =
    let next = (i + 1) % b.max_sent_asdus in
    let rest = release_loop fuel b overflow oldest_valid seq_no next in
    if not overflow && ltb seq_no (entry_at b i).seq_no
    then some (some i)
    else if seq_no == oldest_valid
    then some (some i)
    else if (entry_at b i).seq_no == seq_no
    then some (if option_eq b.newest_sent_asdu i then none else some next)
    else if next == next_index b b.newest_sent_asdu
    then some none
    else rest

-- `checkSequenceNumber` with `sendCount` as its first argument; `none` if the fuel of the loop, one
-- round for each entry of the ring, does not do.
unfoldable pub check_sequence_number : ℕ → KBuffer → ℕ → Option (Bool × KBuffer)
check_sequence_number send_count b seq_no = elim b.oldest_sent_asdu [
  | none ↦ some (seq_no == send_count, b)
  | some oldest ↦
      let oldest_seq = (entry_at b oldest).seq_no in
      let newest_seq = (entry_at b (elim b.newest_sent_asdu [ none ↦ 0 | some j ↦ j ])).seq_no in
      let overflow = not (leb oldest_seq newest_seq) in
      if seq_no_is_valid oldest_seq newest_seq seq_no
      then elim (release_loop b.max_sent_asdus b overflow (oldest_valid_seq_no oldest_seq) seq_no
          oldest) [ none ↦ none | some o ↦ some (true, record b { oldest_sent_asdu = o }) ]
      else some (false, b)
]
