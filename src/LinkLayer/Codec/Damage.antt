-- ===== src/LinkLayer/Codec/Damage.antt =====
-- Frames in which one octet was changed on the line.
use lib.Prelude.{
  ℕ, zero, suc, ◌+◌, ◌<◌, ◌≡◌, ◌≢◌, Bool, List, [], ◌∷◌, ◌++◌, refl, sym, arith, length, set, some,
  subst,
}
use lib.Prelude.Bytes.{AllBytes}
use lib.LinkLayer.Frame.{checksum, fixed_frame, control_field, address_field, variable_length_frame}
use lib.LinkLayer.Parser.{request, Request, parse_header, parse_balanced, discarded, byte}
use lib.LinkLayer.Codec.Parts.{
  IsAddress, framed, framed_with, fixed_layout, variable_layout, layout-variable,
  length-address_field,
}
use lib.LinkLayer.Codec.Control.{control_field-Bits}
use lib.LinkLayer.Codec.Checksum.{
  checksum_ok-changed, check_layout-wrong, check_balanced-wrong, set-framed,
}
use lib.LinkLayer.Codec.Variable.{
  frame, size, length-body, length-frame, variable_length_frame-frame,
}

-- What becomes of a message at both parsers, if it is refused.
abbrev pub Refused : ℕ → ℕ → List ℕ → ℕ → Type 0
Refused al own msg n =
    ((r : Request) → parse_header al own msg n ≢ request r) × (parse_balanced al msg n ≡ discarded)

address_field-AllBytes :
    (al address : ℕ) → IsAddress al address → AllBytes (address_field al address)
unfolding address_field
address_field-AllBytes zero address h = tt
address_field-AllBytes (suc zero) address h = (omega arith, tt)
address_field-AllBytes (suc (suc zero)) address h = (omega arith, (omega arith, tt))
address_field-AllBytes (suc (suc (suc n))) address h = absurd h

-- The octets of a fixed-length frame under its checksum.
module _ (al own fc address n i y : ℕ) (prm dir acd dfc : Bool) where
  -- A fixed-length frame in which one octet between the start octet and the checksum was changed into
  -- another octet is no request for an unbalanced station, whatever its address, and is discarded by
  -- a balanced one.
  pub fixed_frame_damaged :
      IsAddress al address
      → fc < 16
      → i < 1 + al
      → y < 256
      → y ≢ byte (fixed_frame al fc address prm dir acd dfc) (1 + i)
      → Refused al own (set (fixed_frame al fc address prm dir acd dfc) (1 + i) y) n
  unfolding fixed_frame parse_header parse_balanced
  fixed_frame_damaged ha hf hi hy h =
      let c = control_field fc prm dir acd dfc in
      let body = c ∷ address_field al address in
      let e = length-address_field al address ha in
      let hb : AllBytes body = (
        (control_field-Bits fc prm dir acd dfc hf).is_byte,
        address_field-AllBytes al address ha,
      ) in
      let bad = framed_with (0x10 ∷ []) (set body i y) (checksum body) in
      let l = fixed_layout al (byte (set body i y ++ (checksum body ∷ 0x16 ∷ [])) 0) in
      let wrong =
        checksum_ok-changed (0x10 ∷ []) body i y hb (omega arith) hy l h refl (omega arith) in
      subst (λ msg. Refused al own msg n)
        (sym (set-framed (0x10 ∷ []) body i y hb (omega arith) hy))
        (λ r. check_layout-wrong al own bad l r wrong, check_balanced-wrong al bad l wrong)

-- An octet of the part of a frame with user data that the checksum covers.
module _ (al own address l n i y c : ℕ) (user_data : List ℕ) where
  variable_damaged :
      let body = c ∷ (address_field al address ++ user_data) in
      let head = 0x68 ∷ l ∷ l ∷ 0x68 ∷ [] in
      AllBytes body
      → length body ≡ l
      → i < l
      → y < 256
      → n ≡ 6 + l
      → y ≢ byte (framed head body) (4 + i)
      → Refused al own (set (framed head body) (4 + i) y) n
  unfolding parse_header parse_balanced
  variable_damaged hb hl hi hy hn h =
      let body = c ∷ (address_field al address ++ user_data) in
      let head = 0x68 ∷ l ∷ l ∷ 0x68 ∷ [] in
      let bad = framed_with head (set body i y) (checksum body) in
      let rest = set body i y ++ (checksum body ∷ 0x16 ∷ []) in
      let w = variable_layout al (byte rest 0) l in
      let e = layout-variable al l n rest hn in
      let wrong = checksum_ok-changed head body i y hb (omega arith) hy w h refl (omega arith) in
      subst (λ msg. Refused al own msg n) (sym (set-framed head body i y hb (omega arith) hy))
        (
          λ r. rw e (check_layout-wrong al own bad w r wrong),
          rw e (check_balanced-wrong al bad w wrong),
        )

append-AllBytes : (xs ys : List ℕ) → AllBytes xs → AllBytes ys → AllBytes (xs ++ ys)
append-AllBytes [] ys hx hy = hy
append-AllBytes (x ∷ xs) ys hx hy = (hx.0, append-AllBytes xs ys hx.1 hy)

-- A frame with user data, in which one octet between the second start octet and the checksum was
-- changed into another octet, is no request for an unbalanced station, whatever its address, and is
-- discarded by a balanced one.
pub variable_length_frame_damaged :
    (al own fc address i y : ℕ) (prm dir acd dfc : Bool) (user_data msg : List ℕ)
    → IsAddress al address
    → fc < 16
    → AllBytes user_data
    → variable_length_frame al fc address prm dir acd dfc user_data ≡ some msg
    → i < 1 + al + length user_data
    → y < 256
    → y ≢ byte msg (4 + i)
    → Refused al own (set msg (4 + i) y) (length msg)
variable_length_frame_damaged al own fc address i y prm dir acd dfc user_data msg ha hf hb e hi hy =
    let c = control_field fc prm dir acd dfc in
    let bytes =
      append-AllBytes (address_field al address) user_data (address_field-AllBytes al address ha)
        hb in
    subst (λ msg. y ≢ byte msg (4 + i) → Refused al own (set msg (4 + i) y) (length msg))
      (variable_length_frame-frame al fc address prm dir acd dfc user_data msg e)
      (variable_damaged al own address (size al user_data) (length (frame al c address user_data)) i
        y c user_data ((control_field-Bits fc prm dir acd dfc hf).is_byte, bytes)
        (length-body al address user_data ha c) hi hy (length-frame al address user_data ha c))
