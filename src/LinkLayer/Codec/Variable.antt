-- ===== src/LinkLayer/Codec/Variable.antt =====
-- The frames with user data, from `SendVariableLengthFrame` to the parsers.
use lib.Prelude.{
  ℕ, ◌+◌, ◌-◌, ◌<◌, ◌≡◌, Bool, true, false, none, some, List, [], ◌∷◌, ◌++◌, ◌∙◌, ap, refl, subst,
  arith, length, ltb, if◌then◌else◌, take, drop, length-append, append_assoc, some-injective,
  none-ne-some, drop-append, take-append,
}
use lib.LinkLayer.Frame.{control_field, address_field, variable_length_frame, checksum}
use lib.LinkLayer.Parser.{
  request, parse_header, parse_balanced, to_secondary, checksum_ok, check_layout, check_balanced,
  address_of, layout,
}
use lib.LinkLayer.Codec.Control.{control_field-Bits}
use lib.LinkLayer.Codec.Parts.{
  IsAddress, variable_layout, framed, layout-variable, checksum_ok-framed, address_of-variable,
  length-address_field, is_broadcast_address-own,
}
use lib.LinkLayer.Codec.Checked.{request_at, check_layout-own, check_balanced-primary}

-- The length octet of a frame.
abbrev pub size : ℕ → List ℕ → ℕ
size al user_data = 1 + al + length user_data

abbrev pub frame : ℕ → ℕ → ℕ → List ℕ → List ℕ
frame al c address user_data =
    framed (0x68 ∷ size al user_data ∷ size al user_data ∷ 0x68 ∷ [])
      (c ∷ (address_field al address ++ user_data))

module _ (al address : ℕ) (user_data : List ℕ) (h : IsAddress al address) where
  pub length-body :
      (c : ℕ) → length (c ∷ (address_field al address ++ user_data)) ≡ size al user_data
  length-body c =
      let e = length-append (address_field al address) user_data in
      let f = length-address_field al address h in omega arith

  pub length-frame : (c : ℕ) → length (frame al c address user_data) ≡ 6 + size al user_data
  length-frame c =
      let b = c ∷ (address_field al address ++ user_data) in
      let e = length-append b (checksum b ∷ 0x16 ∷ []) in let f = length-body c in omega arith

  frame-checksum :
      (c : ℕ)
      → checksum_ok (frame al c address user_data) (variable_layout al c (size al user_data)) ≡ true
  frame-checksum c =
      let l = size al user_data in
      checksum_ok-framed (0x68 ∷ l ∷ l ∷ 0x68 ∷ []) (c ∷ (address_field al address ++ user_data))
        (variable_layout al c l) refl (let e = length-body c in omega arith)

  frame-layout :
      (c : ℕ)
      → layout al (frame al c address user_data) (length (frame al c address user_data))
        ≡ some (variable_layout al c (size al user_data))
  frame-layout c =
      layout-variable al (size al user_data) (length (frame al c address user_data)) _
        (length-frame c)

  -- The frame, with the user data and the end kept together.
  frame-split :
      (c : ℕ)
      → frame al c address user_data
        ≡ 0x68
          ∷ size al user_data
          ∷ size al user_data
          ∷ 0x68
          ∷ c
          ∷ (address_field al address
              ++ (user_data
                  ++ (checksum (c ∷ (address_field al address ++ user_data)) ∷ 0x16 ∷ [])))
  frame-split c =
      ap (λ xs. 0x68 ∷ size al user_data ∷ size al user_data ∷ 0x68 ∷ c ∷ xs)
        (append_assoc (address_field al address) user_data
          (checksum (c ∷ (address_field al address ++ user_data)) ∷ 0x16 ∷ []))

  frame-address : (c : ℕ) → address_of al (frame al c address user_data) 4 ≡ address
  frame-address c =
      ap (λ msg. address_of al msg 4) (frame-split c)
      ∙ address_of-variable al address c (size al user_data) _ h

  frame-user_data :
      (c : ℕ) → take (length user_data) (drop (5 + al) (frame al c address user_data)) ≡ user_data
  frame-user_data c =
      let l = size al user_data in
      let start = 0x68 ∷ l ∷ l ∷ 0x68 ∷ c ∷ address_field al address in
      let end = checksum (c ∷ (address_field al address ++ user_data)) ∷ 0x16 ∷ [] in
      let e = length-address_field al address h in
      let where_data : 5 + al ≡ length start = omega arith in
      ap (take (length user_data)) (
        ap (drop (5 + al)) (frame-split c)
        ∙ ap (λ n. drop n (start ++ (user_data ++ end))) where_data
        ∙ drop-append start (user_data ++ end))
      ∙ take-append user_data end

  data_length : (size al user_data - al) - 1 ≡ length user_data
  data_length = omega arith

  frame-parsed :
      (fc : ℕ) (dir fcb fcv : Bool)
      → fc < 16
      → let msg = frame al (control_field fc true dir fcb fcv) address user_data in
        parse_header al address msg (length msg)
        ≡ request (request_at (5 + al) (length user_data) fc fcb fcv)
  unfolding parse_header
  frame-parsed fc dir fcb fcv hf =
      let c = control_field fc true dir fcb fcv in
      let msg = frame al c address user_data in
      ap (check_layout al address msg) (frame-layout c)
      ∙ check_layout-own al address fc dir fcb fcv msg (variable_layout al c (size al user_data))
          (control_field-Bits fc true dir fcb fcv hf) (frame-address c)
          (is_broadcast_address-own al address h) (frame-checksum c)
      ∙ ap (λ n. request (request_at (5 + al) n fc fcb fcv)) data_length

  frame-exchanged :
      (fc : ℕ) (dir fcb fcv : Bool)
      → fc < 16
      → let msg = frame al (control_field fc true dir fcb fcv) address user_data in
        parse_balanced al msg (length msg)
        ≡ to_secondary (request_at (5 + al) (length user_data) fc fcb fcv)
  unfolding parse_balanced
  frame-exchanged fc dir fcb fcv hf =
      let c = control_field fc true dir fcb fcv in
      let msg = frame al c address user_data in
      ap (check_balanced al msg) (frame-layout c)
      ∙ check_balanced-primary al fc dir fcb fcv msg (variable_layout al c (size al user_data))
          (control_field-Bits fc true dir fcb fcv hf) (frame-checksum c)
      ∙ ap (λ n. to_secondary (request_at (5 + al) n fc fcb fcv)) data_length

if_some : {A : Type 0} (b : Bool) (x y : A) → (if b then none else some x) ≡ some y → x ≡ y
if_some true x y e = absurd (none-ne-some y e)
if_some false x y e = some-injective x y e

pub variable_length_frame-frame :
    (al fc address : ℕ) (prm dir acd dfc : Bool) (user_data msg : List ℕ)
    → variable_length_frame al fc address prm dir acd dfc user_data ≡ some msg
    → frame al (control_field fc prm dir acd dfc) address user_data ≡ msg
unfolding variable_length_frame
variable_length_frame-frame al fc address prm dir acd dfc user_data msg e =
    if_some (ltb 255 (size al user_data))
      (frame al (control_field fc prm dir acd dfc) address user_data) msg e

-- A frame with user data that a primary station sends to this station's address is read, by the parser
-- of an unbalanced secondary station and by that of a balanced one, as the same function code, frame
-- count bit and FCV flag, and the user data stand in it where the parser says and in their full
-- length.
pub variable_length_frame_understood :
    (al own fc : ℕ) (dir fcb fcv : Bool) (user_data msg : List ℕ)
    → IsAddress al own
    → fc < 16
    → variable_length_frame al fc own true dir fcb fcv user_data ≡ some msg
    → (parse_header al own msg (length msg)
        ≡ request (request_at (5 + al) (length user_data) fc fcb fcv))
      × (parse_balanced al msg (length msg)
          ≡ to_secondary (request_at (5 + al) (length user_data) fc fcb fcv))
      × (take (length user_data) (drop (5 + al) msg) ≡ user_data)
variable_length_frame_understood al own fc dir fcb fcv user_data msg h hf e =
    subst
      (λ msg.
        (parse_header al own msg (length msg)
          ≡ request (request_at (5 + al) (length user_data) fc fcb fcv))
        × (parse_balanced al msg (length msg)
            ≡ to_secondary (request_at (5 + al) (length user_data) fc fcb fcv))
        × (take (length user_data) (drop (5 + al) msg) ≡ user_data))
      (variable_length_frame-frame al fc own true dir fcb fcv user_data msg e)
      (
        frame-parsed al own user_data h fc dir fcb fcv hf,
        frame-exchanged al own user_data h fc dir fcb fcv hf,
        frame-user_data al own user_data h (control_field fc true dir fcb fcv),
      )
