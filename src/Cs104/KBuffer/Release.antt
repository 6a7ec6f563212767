-- ===== src/Cs104/KBuffer/Release.antt =====
-- The loop that releases confirmed frames, and the tests before it.
use lib.Prelude.{
  ℕ, zero, suc, ◌+◌, ◌-◌, ◌%◌, ◌≤◌, ◌<◌, ◌≡◌, refl, false, not, ◌&&◌, ltb, Option, none, some, leb,
  ◌==◌, if◌then◌else◌, sym, arith, ne→==, ◌∙◌, ap, ℕ_discrete,
}
use lib.Cs104.Window.{behind}
use lib.Cs104.KBuffer.{
  KBuffer, entry_at, next_index, seq_no_is_valid, oldest_valid_seq_no, release_loop,
}
use lib.Cs104.KBuffer.Ring.{mod_cases, mod_step, ahead_none, ahead-ne, next-ne}
use lib.Cs104.KBuffer.Tracks.{numbered}

-- The tests accept exactly the numbers at most `n` behind the send counter.
pub seq_no_is_valid_iff :
    (s n r : ℕ)
    → s < 32768
    → r < 32768
    → 0 < n
    → n < 32768
    → seq_no_is_valid (numbered s n 0) s r ≡ leb (behind s r) n
unfolding seq_no_is_valid oldest_valid_seq_no
seq_no_is_valid_iff s n r hs hr h0 hn = ground arith

-- At an entry not newer than `r` the loop takes neither of its first two exits.
goes_on :
    (s n r m : ℕ)
    → s < 32768
    → r < 32768
    → n < 32768
    → m ≤ n
    → behind s r < m
    → ((not (not (leb (numbered s n 0) s)) && ltb r (numbered s m 0)) ≡ false)
      × ((r == oldest_valid_seq_no (numbered s n 0)) ≡ false)
      × ((numbered s m 0 == r) ≡ (suc (behind s r) == m))
unfolding oldest_valid_seq_no
goes_on s n r m hs hr hn hm hp = (ground arith, ground arith, ground arith)

module _ (s n r : ℕ) (b : KBuffer) where
  abbrev pub k : ℕ
  k = b.max_sent_asdus

  -- What the entries from `i` on are, when `m` of them are left.
  abbrev pub Left : ℕ → ℕ → Type 0
  Left i m = (j : ℕ) → j < m → (entry_at b ((i + j) % k)).seq_no ≡ numbered s m j

  Left-next : (i m : ℕ) → Left i (suc m) → Left ((i + 1) % k) m
  Left-next i m h j hj = rw (mod_step k i j (j + 1) refl) (h (j + 1) (omega arith) ∙ omega arith)

  abbrev pub released : ℕ → ℕ → Option ℕ
  released i m = if behind s r == 0 then none else some ((i + (m - behind s r)) % k)

  pub release_loop-finds :
      (f i m : ℕ)
      → m ≤ f
      → i < k
      → m ≤ k
      → m ≤ n
      → n < 32768
      → s < 32768
      → r < 32768
      → behind s r < m
      → b.newest_sent_asdu ≡ some ((i + (m - 1)) % k)
      → Left i m
      → release_loop f b (not (leb (numbered s n 0) s)) (oldest_valid_seq_no (numbered s n 0)) r i
        ≡ some (released i m)
  unfolding release_loop oldest_valid_seq_no
  release_loop-finds zero i m hf hi hk hn n' hs hr hp new left = absurd (omega arith)
  release_loop-finds (suc f) i zero hf hi hk hn n' hs hr hp new left = absurd (omega arith)
  release_loop-finds (suc f) i (suc m) hf hi hk hn n' hs hr hp new left =
      let here : (entry_at b i).seq_no ≡ numbered s (suc m) 0 =
        rw (ahead_none k i 0 hi refl) at (left 0 (omega arith)) in
      elim (ℕ_discrete (behind s r) m) [
        | yes p ↦ ground (arith, ahead-ne k i (suc m - 1), ahead_none k i (suc m - 1))
        | no p ↦
            let ih =
              release_loop-finds f ((i + 1) % k) m (omega arith) (omega (arith, mod_cases k i 1 hi))
                (omega arith) (omega arith) n' hs hr (omega arith)
                (new ∙ ap some (sym (mod_step k i (m - 1) (suc m - 1) (omega arith))))
                (Left-next i m left) in
            let (t1, t2, t3) = goes_on s n r (suc m) hs hr n' hn hp in
            let t4 : ((i + 1) % k == next_index b b.newest_sent_asdu) ≡ false =
              rw new (ground (arith, next-ne k i (suc m - 1))) in
            rw (here, t1, t2, t3, ne→== (suc (behind s r)) (suc m) (omega arith), t4, ih)
              (ground (arith, mod_step k i (m - behind s r) (suc m - behind s r)))
      ]

  -- The number just before the oldest entry's ends the loop in its first round.
  pub release_loop-stays :
      (f i : ℕ)
      → 0 < f
      → 0 < n
      → n < 32768
      → s < 32768
      → r < 32768
      → behind s r ≡ n
      → (entry_at b i).seq_no ≡ numbered s n 0
      → release_loop f b (not (leb (numbered s n 0) s)) (oldest_valid_seq_no (numbered s n 0)) r i
        ≡ some (some i)
  unfolding release_loop oldest_valid_seq_no
  release_loop-stays zero i hf h0 hn hs hr hp e = absurd (omega arith)
  release_loop-stays (suc f) i hf h0 hn hs hr hp e = rw e (ground arith)
