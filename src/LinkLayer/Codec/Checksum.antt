-- ===== src/LinkLayer/Codec/Checksum.antt =====
-- What the checksum of a frame detects.
use lib.Prelude.{
  ℕ, zero, suc, ◌+◌, ◌%◌, ◌<◌, ◌≡◌, ◌≢◌, false, List, [], ◌∷◌, ◌++◌, ◌∙◌, ap, refl, sym, arith,
  length, length-set, get_or, set, ne→==, some,
}
use lib.Prelude.Bytes.{u8, AllBytes, get_or-byte}
use lib.LinkLayer.Frame.{checksum, checksum_from}
use lib.LinkLayer.Parser.{
  Layout, request, Request, discarded, checksum_ok, check_layout, check_balanced, byte,
}
use lib.LinkLayer.Codec.Parts.{framed, framed_with, checksum_ok-framed_with, get_or-append}

-- The sum modulo 256.
checksum_from-start :
    (a b : ℕ) (xs : List ℕ)
    → a % 256 ≢ b % 256
    → checksum_from a xs % 256 ≢ checksum_from b xs % 256
unfolding checksum_from
checksum_from-start a b [] h = h
checksum_from-start a b (x ∷ xs) h =
    checksum_from-start (u8 (a + x)) (u8 (b + x)) xs (λ e. h (omega arith))

checksum_from-set :
    (a y : ℕ) (xs : List ℕ) (i : ℕ)
    → i < length xs
    → y % 256 ≢ get_or xs i 0 % 256
    → checksum_from a (set xs i y) % 256 ≢ checksum_from a xs % 256
unfolding checksum_from
checksum_from-set a y [] i hi h = absurd (omega arith)
checksum_from-set a y (x ∷ xs) zero hi h =
    checksum_from-start (u8 (a + y)) (u8 (a + x)) xs (λ e. h (omega arith))
checksum_from-set a y (x ∷ xs) (suc i) hi h = checksum_from-set (u8 (a + x)) y xs i (omega arith) h

checksum-set :
    (y : ℕ) (xs : List ℕ) (i : ℕ)
    → AllBytes xs
    → i < length xs
    → y < 256
    → y ≢ get_or xs i 0
    → checksum (set xs i y) ≢ checksum xs
checksum-set y xs i hb hi hy h e =
    let b = get_or-byte xs i hb in
    checksum_from-set 0 y xs i hi (λ e. h (omega arith)) (ap (λ n. n % 256) e)

set-append_right : (xs ys : List ℕ) (i v : ℕ) → set (xs ++ ys) (length xs + i) v ≡ xs ++ set ys i v
set-append_right [] ys i v = ap (λ n. set ys n v) (omega arith)
set-append_right (x ∷ xs) ys i v =
    let e : suc (length xs) + i ≡ suc (length xs + i) = omega arith in
    ap (λ n. set (x ∷ (xs ++ ys)) n v) e ∙ ap (λ l. x ∷ l) (set-append_right xs ys i v)

set-append_left : (xs ys : List ℕ) (i v : ℕ) → i < length xs → set (xs ++ ys) i v ≡ set xs i v ++ ys
set-append_left [] ys i v h = absurd (omega arith)
set-append_left (x ∷ xs) ys zero v h = refl
set-append_left (x ∷ xs) ys (suc i) v h = ap (λ l. x ∷ l) (set-append_left xs ys i v (omega arith))

get_or-append_left :
    (xs ys : List ℕ) (i : ℕ) → i < length xs → get_or (xs ++ ys) i 0 ≡ get_or xs i 0
get_or-append_left [] ys i h = absurd (omega arith)
get_or-append_left (x ∷ xs) ys zero h = refl
get_or-append_left (x ∷ xs) ys (suc i) h = get_or-append_left xs ys i (omega arith)

module _ (pre body : List ℕ) (i y : ℕ) (hb : AllBytes body) (hi : i < length body)
    (hy : y < 256) where
  -- A frame in which one of the octets that the checksum covers is written over.
  pub set-framed :
      set (framed pre body) (length pre + i) y ≡ framed_with pre (set body i y) (checksum body)
  set-framed =
      let tail = checksum body ∷ 0x16 ∷ [] in
      set-append_right pre (body ++ tail) i y
      ∙ ap (λ l. pre ++ l) (set-append_left body tail i y hi)

  byte-framed : byte (framed pre body) (length pre + i) ≡ get_or body i 0
  byte-framed =
      let tail = checksum body ∷ 0x16 ∷ [] in
      get_or-append pre (body ++ tail) i ∙ get_or-append_left body tail i hi

  pub checksum_ok-changed :
      (l : Layout)
      → y ≢ byte (framed pre body) (length pre + i)
      → l.cs_start ≡ length pre
      → l.cs_index ≡ length pre + length body
      → checksum_ok (framed_with pre (set body i y) (checksum body)) l ≡ false
  checksum_ok-changed l h hs he =
      let e = length-set body i y in
      checksum_ok-framed_with pre (set body i y) (checksum body) l hs (omega arith)
      ∙ ne→== (checksum (set body i y)) (checksum body)
          (checksum-set y body i hb hi hy (λ e. h (e ∙ sym byte-framed)))

-- A message with a wrong checksum is no request and is not for either half of a balanced station.
pub check_layout-wrong :
    (al own : ℕ) (msg : List ℕ) (l : Layout) (r : Request)
    → checksum_ok msg l ≡ false
    → check_layout al own msg (some l) ≢ request r
check_layout-wrong al own msg l r h = ground arith

pub check_balanced-wrong :
    (al : ℕ) (msg : List ℕ) (l : Layout)
    → checksum_ok msg l ≡ false
    → check_balanced al msg (some l) ≡ discarded
check_balanced-wrong al msg l h = rw (h) refl
