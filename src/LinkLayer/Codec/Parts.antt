-- ===== src/LinkLayer/Codec/Parts.antt =====
-- The parts of a frame, as the parsers of link_layer.c find them: checksum, address and layout.
use lib.Prelude.{
  ℕ, zero, suc, ◌+◌, ◌-◌, ◌<◌, ◌≡◌, true, false, ◌==◌, arith, sym, refl, ap, ap₂, ◌∙◌, List, [],
  ◌∷◌, ◌++◌, some, length, take, drop, get_or, take-append, drop-append, get_or-append_right, eq→==,
}
use lib.LinkLayer.Frame.{address_field, checksum}
use lib.LinkLayer.Parser.{Layout, layout, address_of, is_broadcast_address, checksum_ok, byte}

-- A station's own address, for an address length of 0, 1 or 2 octets: it is not the broadcast
-- address.
abbrev pub IsAddress : ℕ → ℕ → Type 0
IsAddress zero address = address ≡ 0
IsAddress (suc zero) address = address < 255
IsAddress (suc (suc zero)) address = address < 65535
IsAddress _ address = ⊥

pub length-address_field :
    (al address : ℕ) → IsAddress al address → length (address_field al address) ≡ al
unfolding address_field
length-address_field zero address h = refl
length-address_field (suc zero) address h = refl
length-address_field (suc (suc zero)) address h = refl
length-address_field (suc (suc (suc n))) address h = absurd h

pub is_broadcast_address-own :
    (al address : ℕ) → IsAddress al address → is_broadcast_address al address ≡ false
is_broadcast_address-own zero address h = refl
is_broadcast_address-own (suc zero) address h = ground arith
is_broadcast_address-own (suc (suc zero)) address h = ground arith
is_broadcast_address-own (suc (suc (suc n))) address h = absurd h

pub address_of-fixed :
    (al address c : ℕ) (rest : List ℕ)
    → IsAddress al address
    → address_of al (0x10 ∷ c ∷ (address_field al address ++ rest)) 1 ≡ address
unfolding address_field
address_of-fixed zero address c rest h = sym h
address_of-fixed (suc zero) address c rest h = omega arith
address_of-fixed (suc (suc zero)) address c rest h = omega arith
address_of-fixed (suc (suc (suc n))) address c rest h = absurd h

pub address_of-variable :
    (al address c l : ℕ) (rest : List ℕ)
    → IsAddress al address
    → address_of al (0x68 ∷ l ∷ l ∷ 0x68 ∷ c ∷ (address_field al address ++ rest)) 4 ≡ address
unfolding address_field
address_of-variable zero address c l rest h = sym h
address_of-variable (suc zero) address c l rest h = omega arith
address_of-variable (suc (suc zero)) address c l rest h = omega arith
address_of-variable (suc (suc (suc n))) address c l rest h = absurd h

abbrev pub fixed_layout : ℕ → ℕ → Layout
fixed_layout al c = record {
  control = c;
  cs_start = 1;
  cs_index = 2 + al;
  user_data_start = 0;
  user_data_length = 0;
}

abbrev pub variable_layout : ℕ → ℕ → ℕ → Layout
variable_layout al c l = record {
  control = c;
  cs_start = 4;
  cs_index = 4 + l;
  user_data_start = 5 + al;
  user_data_length = l - al - 1;
}

pub layout-fixed :
    (al n : ℕ) (rest : List ℕ) → layout al (0x10 ∷ rest) n ≡ some (fixed_layout al (byte rest 0))
unfolding layout
layout-fixed al n rest = refl

pub layout-variable :
    (al l n : ℕ) (rest : List ℕ)
    → n ≡ 6 + l
    → layout al (0x68 ∷ l ∷ l ∷ 0x68 ∷ rest) n ≡ some (variable_layout al (byte rest 0) l)
unfolding layout
layout-variable al l n rest h = ground arith

-- A message: its start, the octets that the checksum covers, an octet for the checksum and the end.
abbrev pub framed_with : List ℕ → List ℕ → ℕ → List ℕ
framed_with pre body sum = pre ++ (body ++ (sum ∷ 0x16 ∷ []))

-- A frame.
abbrev pub framed : List ℕ → List ℕ → List ℕ
framed pre body = framed_with pre body (checksum body)

suc-add : (m n : ℕ) → suc m + n ≡ suc (m + n)
suc-add m n = omega arith

pub get_or-append : (xs ys : List ℕ) (n : ℕ) → get_or (xs ++ ys) (length xs + n) 0 ≡ get_or ys n 0
get_or-append [] ys n = ap (λ i. get_or ys i 0) (omega arith)
get_or-append (x ∷ xs) ys n =
    ap (λ i. get_or (x ∷ (xs ++ ys)) i 0) (suc-add (length xs) n) ∙ get_or-append xs ys n

module _ (pre body : List ℕ) (sum : ℕ) (l : Layout) (hs : l.cs_start ≡ length pre)
    (hi : l.cs_index ≡ length pre + length body) where
  covered-framed_with :
      take (l.cs_index - l.cs_start) (drop l.cs_start (framed_with pre body sum)) ≡ body
  covered-framed_with =
      let rest = body ++ (sum ∷ 0x16 ∷ []) in
      let size : l.cs_index - l.cs_start ≡ length body = omega arith in
      ap (λ n. take n (drop l.cs_start (framed_with pre body sum))) size
      ∙ ap (take (length body))
          (ap (λ n. drop n (framed_with pre body sum)) hs ∙ drop-append pre rest)
      ∙ take-append body (sum ∷ 0x16 ∷ [])

  sum-framed_with : byte (framed_with pre body sum) l.cs_index ≡ sum
  sum-framed_with =
      let tail = sum ∷ 0x16 ∷ [] in
      ap (byte (framed_with pre body sum)) hi
      ∙ get_or-append pre (body ++ tail) (length body)
      ∙ get_or-append_right body tail 0

  -- The octet after the covered ones is the one that the checksum is compared with.
  pub checksum_ok-framed_with : checksum_ok (framed_with pre body sum) l ≡ (checksum body == sum)
  checksum_ok-framed_with = ap₂ (λ xs s. checksum xs == s) covered-framed_with sum-framed_with

pub checksum_ok-framed :
    (pre body : List ℕ) (l : Layout)
    → l.cs_start ≡ length pre
    → l.cs_index ≡ length pre + length body
    → checksum_ok (framed pre body) l ≡ true
checksum_ok-framed pre body l hs hi =
    checksum_ok-framed_with pre body (checksum body) l hs hi
    ∙ eq→== (checksum body) (checksum body) refl
