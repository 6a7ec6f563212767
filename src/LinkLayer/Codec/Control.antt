-- ===== src/LinkLayer/Codec/Control.antt =====
-- The bits of the C field.
use lib.Prelude.{ℕ, ◌+◌, ◌<◌, ◌≡◌, Bool, bit_and, ◌==◌, arith, sym, subst}
use lib.Prelude.Bytes.{bit_and-0x0f, bit_and-0x10, bit_and-0x20, bit_and-0x40, bit_and-0x80}
use lib.LinkLayer.Frame.{control_field, flag}

pub record Bits (fc : ℕ) (prm dir acd dfc : Bool) (c : ℕ) : Type 0 where
  pub is_byte : c < 256
  pub code : bit_and c 0x0f ≡ fc
  pub primary : (bit_and c 0x40 == 0x40) ≡ prm
  pub direction : (bit_and c 0x80 == 0x80) ≡ dir
  pub demand : (bit_and c 0x20 == 0x20) ≡ acd
  pub flow : (bit_and c 0x10 == 0x10) ≡ dfc

sum-Bits :
    (fc : ℕ) (prm dir acd dfc : Bool)
    → fc < 16
    → Bits fc prm dir acd dfc (fc + flag prm 0x40 + flag dir 0x80 + flag acd 0x20 + flag dfc 0x10)
sum-Bits fc prm dir acd dfc h =
    let c = fc + flag prm 0x40 + flag dir 0x80 + flag acd 0x20 + flag dfc 0x10 in
    ground (arith, bit_and-0x0f c, bit_and-0x40 c, bit_and-0x80 c, bit_and-0x20 c, bit_and-0x10 c)

-- No sum wraps around: the function code has four bits and the flags are the other four.
control_field-sum :
    (fc : ℕ) (prm dir acd dfc : Bool)
    → fc < 16
    → control_field fc prm dir acd dfc
      ≡ fc + flag prm 0x40 + flag dir 0x80 + flag acd 0x20 + flag dfc 0x10
unfolding control_field
control_field-sum fc prm dir acd dfc h = ground (arith, bit_and-0x0f fc)

pub control_field-Bits :
    (fc : ℕ) (prm dir acd dfc : Bool)
    → fc < 16
    → Bits fc prm dir acd dfc (control_field fc prm dir acd dfc)
control_field-Bits fc prm dir acd dfc h =
    subst (Bits fc prm dir acd dfc) (sym (control_field-sum fc prm dir acd dfc h))
      (sum-Bits fc prm dir acd dfc h)
