-- ===== src/Cs101/Objects/Room.antt =====
-- The room that objects take in an ASDU.
use lib.Prelude.{
  ℕ, suc, ◌+◌, ◌*◌, ◌≤◌, ◌<◌, ◌≡◌, Bool, true, false, List, [], ◌∷◌, ◌++◌, length, length-append,
  if◌then◌else◌, arith,
}
use lib.Cs101.Asdu.{AppLayerParameters, header_length}
use lib.Cs101.Objects.{Codec, InformationObject, IsLawful, encode_base}
use lib.Cs101.Objects.Address.{length-encode_base}
use lib.Cs101.Objects.Elements.{AllObjects, values, addressed, laid_out}

-- The room that `n` objects are asked for, of `k` octets each without the address.
abbrev pub room : AppLayerParameters → Bool → ℕ → ℕ → ℕ
room p sequence n k =
    header_length p + (if sequence then p.size_of_ioa + n * k else n * (p.size_of_ioa + k))

one_more : (m n size k : ℕ) → m < n → size ≤ k → m * size + k ≤ n * k
one_more m n size k lt le =
    let a : m * size ≤ m * k = grind arith in let b : m * k + k ≤ n * k = grind arith in omega arith

module _ (p : AppLayerParameters) (c : Codec) (lawful : IsLawful c) where
  pub length-values :
      (os : List (InformationObject c)) → length (values p c os) ≡ length os * c.element_size
  length-values [] = omega arith
  length-values (o ∷ os) =
      let n : c.element_size + length os * c.element_size ≡ suc (length os) * c.element_size =
        grind arith in
      omega (
        arith,
        length-append (c.bytes o.value) (values p c os),
        lawful.length-bytes o.value,
        length-values os,
        n,
      )

  pub length-addressed :
      (os : List (InformationObject c))
      → AllObjects p c os
      → length (addressed p c os) ≡ length os * (p.size_of_ioa + c.element_size)
  length-addressed [] all = omega arith
  length-addressed (o ∷ os) all =
      let size = p.size_of_ioa + c.element_size in
      let n : size + length os * size ≡ suc (length os) * size = grind arith in
      let base = encode_base p false o.object_address in
      omega (
        arith,
        length-append base (c.bytes o.value ++ addressed p c os),
        length-append (c.bytes o.value) (addressed p c os),
        length-encode_base p o.object_address all.0.0,
        lawful.length-bytes o.value,
        length-addressed os all.1,
        n,
      )

  -- Another object has room where all have.
  pub room_next :
      (sequence : Bool) (x : InformationObject c) (held : List (InformationObject c)) (n k : ℕ)
      → AllObjects p c (x ∷ held)
      → length (x ∷ held) < n
      → c.element_size ≤ k
      → length (laid_out p c sequence (x ∷ held))
          + header_length p
          + (if sequence then k else p.size_of_ioa + k)
        ≤ room p sequence n k
  room_next true x held n k all lt le =
      let base = encode_base p false x.object_address in
      omega (
        arith,
        length-append base (values p c (x ∷ held)),
        length-values (x ∷ held),
        length-encode_base p x.object_address all.0.0,
        one_more (length (x ∷ held)) n c.element_size k lt le,
      )
  room_next false x held n k all lt le = omega (
    arith,
    length-addressed (x ∷ held) all,
    one_more (length (x ∷ held)) n (p.size_of_ioa + c.element_size) (p.size_of_ioa + k) lt
        (omega arith),
  )

-- The first object has room where all have.
pub room_first :
    (p : AppLayerParameters) (sequence : Bool) (n k : ℕ)
    → header_length p + (p.size_of_ioa + k) ≤ room p sequence (suc n) k
room_first p true n k = omega (arith, one_more 0 (suc n) 0 k (omega arith) (omega arith))
room_first p false n k =
    omega (arith, one_more 0 (suc n) 0 (p.size_of_ioa + k) (omega arith) (omega arith))
