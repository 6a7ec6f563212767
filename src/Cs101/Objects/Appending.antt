-- ===== src/Cs101/Objects/Appending.antt =====
-- Another object behind those that are laid out in a payload.
use lib.Prelude.{
  ℕ, ◌+◌, ◌≡◌, refl, sym, ap, ◌∙◌, Bool, true, false, List, [], ◌∷◌, ◌++◌, append_assoc, append-nil,
  length, arith,
}
use lib.Cs101.Asdu.{AppLayerParameters}
use lib.Cs101.Objects.{Codec, InformationObject, encode_base}
use lib.Cs101.Objects.Elements.{values, addressed, laid_out, Consecutive, InOrder}

module _ (p : AppLayerParameters) (c : Codec) where
  addressed-append :
      (os : List (InformationObject c)) (o : InformationObject c)
      → addressed p c (os ++ (o ∷ []))
        ≡ addressed p c os ++ (encode_base p false o.object_address ++ c.bytes o.value)
  addressed-append [] o =
      ap (λ l. encode_base p false o.object_address ++ l) (append-nil (c.bytes o.value))
  addressed-append (x ∷ os) o =
      let base = encode_base p false x.object_address in
      let more = encode_base p false o.object_address ++ c.bytes o.value in
      ap (λ l. base ++ (c.bytes x.value ++ l)) (addressed-append os o)
      ∙ ap (λ l. base ++ l) (sym (append_assoc (c.bytes x.value) (addressed p c os) more))
      ∙ sym (append_assoc base (c.bytes x.value ++ addressed p c os) more)

  values-append :
      (os : List (InformationObject c)) (o : InformationObject c)
      → values p c (os ++ (o ∷ [])) ≡ values p c os ++ c.bytes o.value
  values-append [] o = append-nil (c.bytes o.value)
  values-append (x ∷ os) o =
      ap (λ l. c.bytes x.value ++ l) (values-append os o)
      ∙ sym (append_assoc (c.bytes x.value) (values p c os) (c.bytes o.value))

  -- The objects after the first: with their addresses, or in a sequence without.
  pub laid_out-append :
      (sequence : Bool) (x : InformationObject c) (os : List (InformationObject c))
      (o : InformationObject c)
      → laid_out p c sequence ((x ∷ os) ++ (o ∷ []))
        ≡ laid_out p c sequence (x ∷ os)
          ++ (encode_base p sequence o.object_address ++ c.bytes o.value)
  unfolding encode_base
  laid_out-append false x os o = addressed-append (x ∷ os) o
  laid_out-append true x os o =
      ap (λ l. encode_base p false x.object_address ++ l) (values-append (x ∷ os) o)
      ∙ sym (
          append_assoc (encode_base p false x.object_address) (values p c (x ∷ os))
            (c.bytes o.value))

  pub laid_out_one :
      (sequence : Bool) (o : InformationObject c)
      → laid_out p c sequence (o ∷ []) ≡ encode_base p false o.object_address ++ c.bytes o.value
  laid_out_one false o = addressed-append [] o
  laid_out_one true o =
      ap (λ l. encode_base p false o.object_address ++ l) (append-nil (c.bytes o.value))

  Consecutive-append :
      (address : ℕ) (os : List (InformationObject c)) (o : InformationObject c)
      → Consecutive p c address os
      → o.object_address ≡ address + length os
      → Consecutive p c address (os ++ (o ∷ []))
  Consecutive-append address [] o all e = (omega arith, tt)
  Consecutive-append address (x ∷ os) o all e =
      (all.0, Consecutive-append (address + 1) os o all.1 (omega arith))

  pub InOrder-one : (sequence : Bool) (o : InformationObject c) → InOrder p c sequence (o ∷ [])
  InOrder-one false o = tt
  InOrder-one true o = (refl, tt)

  pub InOrder-append :
      (sequence : Bool) (x : InformationObject c) (os : List (InformationObject c))
      (o : InformationObject c)
      → InOrder p c sequence (x ∷ os)
      → (sequence ≡ true → o.object_address ≡ x.object_address + length (x ∷ os))
      → InOrder p c sequence ((x ∷ os) ++ (o ∷ []))
  InOrder-append false x os o h e = tt
  InOrder-append true x os o h e = Consecutive-append x.object_address (x ∷ os) o h (e refl)
