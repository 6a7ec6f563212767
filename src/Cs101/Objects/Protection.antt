-- ===== src/Cs101/Objects/Protection.antt =====
-- Information objects: events of protection equipment. An encode function that calls that of the type without its time
-- stamp is written out.
use lib.Prelude.{ℕ, ◌<◌, refl, List, ◌∷◌, ◌++◌, get_or}
use lib.Prelude.Bytes.{AllBytes}
use lib.Apl.Time.{Cp56Time2a}
use lib.Cs101.Objects.{by_sequence, Codec, IsLawful, sized}
use lib.Cs101.Objects.Octets.{
  TwoOctets, two_octets, two_octets_at, Cp24Time2a, cp24_octets, cp24_at, cp56_octets, cp56_at,
}

pub record EventOfProtectionEquipment : Type 0 where
  pub event : ℕ
  pub elapsed_time : TwoOctets
  pub timestamp : Cp24Time2a

unfoldable pub encode_event_of_protection_equipment : EventOfProtectionEquipment → List ℕ
encode_event_of_protection_equipment v =
    v.event ∷ two_octets v.elapsed_time ++ (cp24_octets v.timestamp)

unfoldable pub event_of_protection_equipment_from_buffer : List ℕ → EventOfProtectionEquipment
event_of_protection_equipment_from_buffer l = record {
  event = get_or l 0 0;
  elapsed_time = two_octets_at l 1;
  timestamp = cp24_at l 3;
}

-- M_EP_TA_1
abbrev pub event_of_protection_equipment : Codec
event_of_protection_equipment = record {
  Value = EventOfProtectionEquipment;
  type_id = 17;
  required = sized 6;
  element_size = 6;
  layout = by_sequence;
  bytes = encode_event_of_protection_equipment;
  value = event_of_protection_equipment_from_buffer;
  Fits = λ v.
      (v.event < 256) × AllBytes (two_octets v.elapsed_time) × AllBytes (cp24_octets v.timestamp);
}

pub event_of_protection_equipment-IsLawful : IsLawful event_of_protection_equipment
unfolding encode_event_of_protection_equipment event_of_protection_equipment_from_buffer
event_of_protection_equipment-IsLawful = record {
  length-bytes = λ v. refl;
  value-bytes = λ v rest h. refl;
}

pub record EventOfProtectionEquipmentWithCp56Time2a : Type 0 where
  pub event : ℕ
  pub elapsed_time : TwoOctets
  pub timestamp : Cp56Time2a

unfoldable pub encode_event_of_protection_equipment_with_cp56_time2a :
    EventOfProtectionEquipmentWithCp56Time2a → List ℕ
encode_event_of_protection_equipment_with_cp56_time2a v =
    v.event ∷ two_octets v.elapsed_time ++ (cp56_octets v.timestamp)

unfoldable pub event_of_protection_equipment_with_cp56_time2a_from_buffer :
    List ℕ → EventOfProtectionEquipmentWithCp56Time2a
event_of_protection_equipment_with_cp56_time2a_from_buffer l = record {
  event = get_or l 0 0;
  elapsed_time = two_octets_at l 1;
  timestamp = cp56_at l 3;
}

-- M_EP_TD_1
abbrev pub event_of_protection_equipment_with_cp56_time2a : Codec
event_of_protection_equipment_with_cp56_time2a = record {
  Value = EventOfProtectionEquipmentWithCp56Time2a;
  type_id = 38;
  required = sized 10;
  element_size = 10;
  layout = by_sequence;
  bytes = encode_event_of_protection_equipment_with_cp56_time2a;
  value = event_of_protection_equipment_with_cp56_time2a_from_buffer;
  Fits = λ v.
      (v.event < 256) × AllBytes (two_octets v.elapsed_time) × AllBytes (cp56_octets v.timestamp);
}

pub event_of_protection_equipment_with_cp56_time2a-IsLawful :
    IsLawful event_of_protection_equipment_with_cp56_time2a
unfolding encode_event_of_protection_equipment_with_cp56_time2a
    event_of_protection_equipment_with_cp56_time2a_from_buffer
event_of_protection_equipment_with_cp56_time2a-IsLawful = record {
  length-bytes = λ v. refl;
  value-bytes = λ v rest h. refl;
}

pub record PackedStartEventsOfProtectionEquipment : Type 0 where
  pub event : ℕ
  pub qdp : ℕ
  pub elapsed_time : TwoOctets
  pub timestamp : Cp24Time2a

unfoldable pub encode_packed_start_events_of_protection_equipment :
    PackedStartEventsOfProtectionEquipment → List ℕ
encode_packed_start_events_of_protection_equipment v =
    v.event ∷ v.qdp ∷ two_octets v.elapsed_time ++ (cp24_octets v.timestamp)

unfoldable pub packed_start_events_of_protection_equipment_from_buffer :
    List ℕ → PackedStartEventsOfProtectionEquipment
packed_start_events_of_protection_equipment_from_buffer l = record {
  event = get_or l 0 0;
  qdp = get_or l 1 0;
  elapsed_time = two_octets_at l 2;
  timestamp = cp24_at l 4;
}

-- M_EP_TB_1
abbrev pub packed_start_events_of_protection_equipment : Codec
packed_start_events_of_protection_equipment = record {
  Value = PackedStartEventsOfProtectionEquipment;
  type_id = 18;
  required = sized 7;
  element_size = 7;
  layout = by_sequence;
  bytes = encode_packed_start_events_of_protection_equipment;
  value = packed_start_events_of_protection_equipment_from_buffer;
  Fits = λ v.
      (v.event < 256)
      × (v.qdp < 256)
      × AllBytes (two_octets v.elapsed_time)
      × AllBytes (cp24_octets v.timestamp);
}

pub packed_start_events_of_protection_equipment-IsLawful :
    IsLawful packed_start_events_of_protection_equipment
unfolding encode_packed_start_events_of_protection_equipment
    packed_start_events_of_protection_equipment_from_buffer
packed_start_events_of_protection_equipment-IsLawful = record {
  length-bytes = λ v. refl;
  value-bytes = λ v rest h. refl;
}

pub record PackedStartEventsOfProtectionEquipmentWithCp56Time2a : Type 0 where
  pub event : ℕ
  pub qdp : ℕ
  pub elapsed_time : TwoOctets
  pub timestamp : Cp56Time2a

unfoldable pub encode_packed_start_events_of_protection_equipment_with_cp56_time2a :
    PackedStartEventsOfProtectionEquipmentWithCp56Time2a → List ℕ
encode_packed_start_events_of_protection_equipment_with_cp56_time2a v =
    v.event ∷ v.qdp ∷ two_octets v.elapsed_time ++ (cp56_octets v.timestamp)

unfoldable pub packed_start_events_of_protection_equipment_with_cp56_time2a_from_buffer :
    List ℕ → PackedStartEventsOfProtectionEquipmentWithCp56Time2a
packed_start_events_of_protection_equipment_with_cp56_time2a_from_buffer l = record {
  event = get_or l 0 0;
  qdp = get_or l 1 0;
  elapsed_time = two_octets_at l 2;
  timestamp = cp56_at l 4;
}

-- M_EP_TE_1
abbrev pub packed_start_events_of_protection_equipment_with_cp56_time2a : Codec
packed_start_events_of_protection_equipment_with_cp56_time2a = record {
  Value = PackedStartEventsOfProtectionEquipmentWithCp56Time2a;
  type_id = 39;
  required = sized 11;
  element_size = 11;
  layout = by_sequence;
  bytes = encode_packed_start_events_of_protection_equipment_with_cp56_time2a;
  value = packed_start_events_of_protection_equipment_with_cp56_time2a_from_buffer;
  Fits = λ v.
      (v.event < 256)
      × (v.qdp < 256)
      × AllBytes (two_octets v.elapsed_time)
      × AllBytes (cp56_octets v.timestamp);
}

pub packed_start_events_of_protection_equipment_with_cp56_time2a-IsLawful :
    IsLawful packed_start_events_of_protection_equipment_with_cp56_time2a
unfolding encode_packed_start_events_of_protection_equipment_with_cp56_time2a
    packed_start_events_of_protection_equipment_with_cp56_time2a_from_buffer
packed_start_events_of_protection_equipment_with_cp56_time2a-IsLawful = record {
  length-bytes = λ v. refl;
  value-bytes = λ v rest h. refl;
}
