-- ===== src/LinkLayer/Codec/Fixed.antt =====
-- The frames of fixed length, from `SendFixedFrame` to the parsers.
use lib.Prelude.{ℕ, ◌<◌, ◌≡◌, Bool, true, false, List, [], ◌∷◌, refl, arith}
use lib.LinkLayer.Frame.{control_field, address_field, fixed_frame}
use lib.LinkLayer.Parser.{
  request, parse_header, parse_balanced, to_secondary, to_primary, checksum_ok, address_of,
}
use lib.LinkLayer.Codec.Control.{control_field-Bits}
use lib.LinkLayer.Codec.Parts.{
  IsAddress, fixed_layout, checksum_ok-framed, address_of-fixed, length-address_field,
  is_broadcast_address-own,
}
use lib.LinkLayer.Codec.Checked.{
  request_at, check_layout-own, check_balanced-primary, check_balanced-secondary,
}

-- The octets that the checksum of a frame covers.
abbrev body : ℕ → ℕ → ℕ → Bool → Bool → Bool → Bool → List ℕ
body al fc address prm dir acd dfc = control_field fc prm dir acd dfc ∷ address_field al address

fixed_frame-checksum :
    (al fc address : ℕ) (prm dir acd dfc : Bool)
    → IsAddress al address
    → checksum_ok
        (fixed_frame al fc address prm dir acd dfc)
        (fixed_layout al (control_field fc prm dir acd dfc))
      ≡ true
unfolding fixed_frame
fixed_frame-checksum al fc address prm dir acd dfc h =
    checksum_ok-framed (0x10 ∷ []) (body al fc address prm dir acd dfc)
      (fixed_layout al (control_field fc prm dir acd dfc)) refl
      (let e = length-address_field al address h in omega arith)

fixed_frame-address :
    (al fc address : ℕ) (prm dir acd dfc : Bool)
    → IsAddress al address
    → address_of al (fixed_frame al fc address prm dir acd dfc) 1 ≡ address
unfolding fixed_frame
fixed_frame-address al fc address prm dir acd dfc h =
    address_of-fixed al address (control_field fc prm dir acd dfc) _ h

-- A fixed-length frame that a primary station sends to this station's address, of any function code
-- of four bits and any flags, is read by the parser of an unbalanced secondary station as the same
-- function code, frame count bit and FCV flag, without user data.
pub fixed_frame_understood :
    (al own fc n : ℕ) (dir fcb fcv : Bool)
    → IsAddress al own
    → fc < 16
    → parse_header al own (fixed_frame al fc own true dir fcb fcv) n
      ≡ request (request_at 0 0 fc fcb fcv)
unfolding parse_header fixed_frame
fixed_frame_understood al own fc n dir fcb fcv h hf =
    let c = control_field fc true dir fcb fcv in
    let msg = fixed_frame al fc own true dir fcb fcv in
    check_layout-own al own fc dir fcb fcv msg (fixed_layout al c)
      (control_field-Bits fc true dir fcb fcv hf) (fixed_frame-address al fc own true dir fcb fcv h)
      (is_broadcast_address-own al own h) (fixed_frame-checksum al fc own true dir fcb fcv h)

-- A fixed-length frame that a balanced station sends is read by its peer as what it was made from: a
-- primary message as a request to the peer's secondary half, with the same function code, frame
-- count bit and FCV flag, and a secondary one as an answer to its primary half, with the same function
-- code, direction, flow control and access demand flags and the sender's address.
pub fixed_frame_exchanged :
    (al address fc n : ℕ) (dir acd dfc : Bool)
    → IsAddress al address
    → fc < 16
    → (parse_balanced al (fixed_frame al fc address true dir acd dfc) n
        ≡ to_secondary (request_at 0 0 fc acd dfc))
      × (parse_balanced al (fixed_frame al fc address false dir acd dfc) n
          ≡ to_primary fc dir dfc acd address
              (fixed_layout al (control_field fc false dir acd dfc)))
unfolding parse_balanced fixed_frame
fixed_frame_exchanged al address fc n dir acd dfc h hf = (
  check_balanced-primary al fc dir acd dfc (fixed_frame al fc address true dir acd dfc)
      (fixed_layout al (control_field fc true dir acd dfc))
      (control_field-Bits fc true dir acd dfc hf)
      (fixed_frame-checksum al fc address true dir acd dfc h),
  check_balanced-secondary al fc address dir acd dfc (fixed_frame al fc address false dir acd dfc)
      (fixed_layout al (control_field fc false dir acd dfc))
      (control_field-Bits fc false dir acd dfc hf)
      (fixed_frame-checksum al fc address false dir acd dfc h)
      (fixed_frame-address al fc address false dir acd dfc h),
)
