-- ===== src/Cs101/Objects/Address.antt =====
-- The address of an information object, put into a message and read from it.
use lib.Prelude.{
  ℕ, suc, ◌+◌, ◌*◌, ◌/◌, ◌^◌, ◌≤◌, ◌<◌, ◌≡◌, refl, sym, ap, ◌∙◌, ◌⊎◌, inl, inr, false, List, [],
  ◌∷◌, ◌++◌, length, length-append, get_or, ltb, if◌then◌else◌, arith,
}
use lib.Prelude.Bytes.{u8}
use lib.Cs101.Asdu.{AppLayerParameters}
use lib.Cs101.Objects.{encode_base, parse_object_address}

-- The sizes of addresses that there are, and an address of the size.
abbrev pub IsAddress : AppLayerParameters → ℕ → Type 0
IsAddress p address = (1 ≤ p.size_of_ioa) × (p.size_of_ioa ≤ 3) × (address < 256 ^ p.size_of_ioa)

pub get_or-append :
    (pre xs : List ℕ) (i : ℕ) → get_or (pre ++ xs) (length pre + i) 0 ≡ get_or xs i 0
get_or-append [] xs i = ap (λ j. get_or xs j 0) (omega arith)
get_or-append (x ∷ pre) xs i =
    let next : length (x ∷ pre) + i ≡ suc (length pre + i) = omega arith in
    ap (λ j. get_or (x ∷ (pre ++ xs)) j 0) next ∙ get_or-append pre xs i

pub length-encode_base :
    (p : AppLayerParameters) (address : ℕ)
    → IsAddress p address
    → length (encode_base p false address) ≡ p.size_of_ioa
unfolding encode_base
length-encode_base p address h = ground arith

size_cases : (n : ℕ) → 1 ≤ n → n ≤ 3 → (n ≡ 1) ⊎ ((n ≡ 2) ⊎ (n ≡ 3))
size_cases n h h' = ground arith

module _ (p : AppLayerParameters) (address : ℕ) (pre rest : List ℕ) where
  abbrev msg : List ℕ → List ℕ
  msg octets = pre ++ (octets ++ rest)

  octet_at :
      (octets : List ℕ) (i : ℕ)
      → get_or (msg octets) (length pre + i) 0 ≡ get_or (octets ++ rest) i 0
  octet_at octets i = get_or-append pre (octets ++ rest) i

  length_msg : (octets : List ℕ) → length (msg octets) ≡ length pre + (length octets + length rest)
  length_msg octets = omega (arith, length-append pre (octets ++ rest), length-append octets rest)

  parsed :
      (octets : List ℕ) (n : ℕ)
      → p.size_of_ioa ≡ n
      → 1 ≤ n
      → n ≤ 3
      → length octets ≡ n
      → address
        ≡ get_or (octets ++ rest) 0 0
          + (if ltb 1 n then get_or (octets ++ rest) 1 0 * 0x100 else 0)
          + (if ltb 2 n then get_or (octets ++ rest) 2 0 * 0x10000 else 0)
      → parse_object_address p (msg octets) (length pre) ≡ address
  unfolding parse_object_address
  parsed octets n e lo hi le sum =
      let at : length pre + 0 ≡ length pre = omega arith in
      let first : get_or (msg octets) (length pre) 0 ≡ get_or (octets ++ rest) 0 0 =
        ap (λ i. get_or (msg octets) i 0) (sym at) ∙ octet_at octets 0 in
      ground (arith, first, octet_at octets 1, octet_at octets 2, length_msg octets)

  of_octets :
      (octets : List ℕ)
      → encode_base p false address ≡ octets
      → parse_object_address p (msg octets) (length pre) ≡ address
      → parse_object_address p (msg (encode_base p false address)) (length pre) ≡ address
  of_octets octets e h = ap (λ o. parse_object_address p (msg o) (length pre)) e ∙ h

  pub parse-encode_base :
      IsAddress p address
      → parse_object_address p (pre ++ (encode_base p false address ++ rest)) (length pre) ≡ address
  unfolding encode_base
  parse-encode_base h = elim (size_cases p.size_of_ioa h.0 h.1) [
    | inl e ↦
        let small : address < 256 = omega (arith, h.2, ap (λ n. 256 ^ n) e) in
        of_octets (u8 address ∷ []) (ground arith)
          (parsed (u8 address ∷ []) 1 e (omega arith) (omega arith) refl (omega arith))
    | inr (inl e) ↦
        let small : address < 65536 = omega (arith, h.2, ap (λ n. 256 ^ n) e) in
        let octets = u8 address ∷ u8 (address / 0x100) ∷ [] in
        of_octets octets (ground arith)
          (parsed octets 2 e (omega arith) (omega arith) refl (omega arith))
    | inr (inr e) ↦
        let small : address < 16777216 = omega (arith, h.2, ap (λ n. 256 ^ n) e) in
        let octets = u8 address ∷ u8 (address / 0x100) ∷ u8 (address / 0x10000) ∷ [] in
        of_octets octets (ground arith)
          (parsed octets 3 e (omega arith) (omega arith) refl (omega arith))
  ]
