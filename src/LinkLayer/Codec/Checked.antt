-- ===== src/LinkLayer/Codec/Checked.antt =====
-- What the parsers make of a message whose parts are in order.
use lib.Prelude.{ℕ, ◌≡◌, Bool, true, false, refl, List, some, !=-same}
use lib.LinkLayer.Parser.{
  Layout, Request, request, check_layout, checksum_ok, address_of, is_broadcast_address,
  check_balanced, to_secondary, to_primary,
}
use lib.LinkLayer.Codec.Control.{Bits}

-- A primary message with user data from `start`, `n` octets long.
abbrev pub request_at : ℕ → ℕ → ℕ → Bool → Bool → Request
request_at start n fc fcb fcv = record {
  fc = fc;
  is_broadcast = false;
  fcb = fcb;
  fcv = fcv;
  user_data_start = start;
  user_data_length = n;
}

pub check_layout-own :
    (al own fc : ℕ) (dir fcb fcv : Bool) (msg : List ℕ) (l : Layout)
    → Bits fc true dir fcb fcv l.control
    → address_of al msg l.cs_start ≡ own
    → is_broadcast_address al own ≡ false
    → checksum_ok msg l ≡ true
    → check_layout al own msg (some l)
      ≡ request (request_at l.user_data_start l.user_data_length fc fcb fcv)
check_layout-own al own fc dir fcb fcv msg l b ha hb hc =
    rw (ha, hb, !=-same own, hc, b.code, b.primary, b.demand, b.flow) refl

pub check_balanced-primary :
    (al fc : ℕ) (dir fcb fcv : Bool) (msg : List ℕ) (l : Layout)
    → Bits fc true dir fcb fcv l.control
    → checksum_ok msg l ≡ true
    → check_balanced al msg (some l)
      ≡ to_secondary (request_at l.user_data_start l.user_data_length fc fcb fcv)
check_balanced-primary al fc dir fcb fcv msg l b hc =
    rw (hc, b.code, b.primary, b.demand, b.flow) refl

pub check_balanced-secondary :
    (al fc address : ℕ) (dir acd dfc : Bool) (msg : List ℕ) (l : Layout)
    → Bits fc false dir acd dfc l.control
    → checksum_ok msg l ≡ true
    → address_of al msg l.cs_start ≡ address
    → check_balanced al msg (some l) ≡ to_primary fc dir dfc acd address l
check_balanced-secondary al fc address dir acd dfc msg l b hc ha =
    rw (hc, b.code, b.primary, b.demand, b.flow, b.direction, ha) refl
