-- ===== src/Cs101/Objects/Qualifiers/Created.antt =====
-- What the accessors give of an object that a create function made.
use lib.Prelude.{
  ℕ, ◌%◌, ◌<◌, ◌≡◌, refl, ◌∙◌, Bool, true, false, not, ◌==◌, ◌&&◌, bool_eq, bool_eq→eq, &&-true,
  if◌then◌else◌, bit_and, arith,
}
use lib.Prelude.Bytes.{all_below, all_below-IsSound, bit_and-3}
use lib.Cs101.Objects.Octets.{FourOctets}
use lib.Cs101.Objects.Qualifiers.{
  with_select, sco_octet, dcq_octet, qualifier, flag, create_single_command, single_command_qu,
  single_command_state, single_command_is_select, create_double_command, double_command_qu,
  double_command_state, double_command_is_select, create_step_command, step_command_qu,
  step_command_state, step_command_is_select, create_setpoint_command_short,
  setpoint_command_short_ql, setpoint_command_short_is_select, create_file_ready,
  file_ready_is_positive, create_section_ready, section_ready_is_not_ready,
}

-- The fields of the octet of a single command, for one qualifier.
abbrev sco_right : Bool → Bool → ℕ → Bool
sco_right command select qu =
    let octet = sco_octet command select qu in
    qualifier octet == qu % 32
    && (bool_eq (flag octet 0x01) command && bool_eq (flag octet 0x80) select)

sco_table : (command select : Bool) → all_below 256 (sco_right command select) ≡ true
unfolding all_below
sco_table true true = refl
sco_table true false = refl
sco_table false true = refl
sco_table false false = refl

abbrev dcq_right : ℕ → Bool → ℕ → Bool
dcq_right state select qu =
    let octet = dcq_octet state select qu in
    qualifier octet == qu % 32 && (bit_and octet 0x03 == state && bool_eq (flag octet 0x80) select)

dcq_table : (select : Bool) → all_below 4 (λ state. all_below 256 (dcq_right state select)) ≡ true
unfolding all_below
dcq_table true = refl
dcq_table false = refl

abbrev qos_right : Bool → ℕ → Bool
qos_right select ql =
    let octet = with_select select (bit_and ql 0x7f) in
    bit_and octet 0x7f == ql % 128 && bool_eq (flag octet 0x80) select

qos_table : (select : Bool) → all_below 256 (qos_right select) ≡ true
unfolding all_below
qos_table true = refl
qos_table false = refl

sco_fields :
    (command select : Bool) (qu : ℕ)
    → qu < 256
    → (qualifier (sco_octet command select qu) ≡ qu % 32)
      × (flag (sco_octet command select qu) 0x01 ≡ command)
      × (flag (sco_octet command select qu) 0x80 ≡ select)
sco_fields command select qu h =
    let octet = sco_octet command select qu in
    let all =
      &&-true (qualifier octet == qu % 32) _
        (all_below-IsSound 256 (sco_right command select) qu (sco_table command select) h) in
    let flags =
      &&-true (bool_eq (flag octet 0x01) command) (bool_eq (flag octet 0x80) select) all.1 in
    (ground (arith, all.0), bool_eq→eq _ _ flags.0, bool_eq→eq _ _ flags.1)

dcq_fields :
    (state : ℕ) (select : Bool) (qu : ℕ)
    → state < 4
    → qu < 256
    → (qualifier (dcq_octet state select qu) ≡ qu % 32)
      × (bit_and (dcq_octet state select qu) 0x03 ≡ state)
      × (flag (dcq_octet state select qu) 0x80 ≡ select)
dcq_fields state select qu lt h =
    let octet = dcq_octet state select qu in
    let row =
      all_below-IsSound 4 (λ n. all_below 256 (dcq_right n select)) state (dcq_table select) lt in
    let all =
      &&-true (qualifier octet == qu % 32) _
        (all_below-IsSound 256 (dcq_right state select) qu row h) in
    let rest = &&-true (bit_and octet 0x03 == state) (bool_eq (flag octet 0x80) select) all.1 in
    (ground (arith, all.0), ground (arith, rest.0), bool_eq→eq _ _ rest.1)

-- The octet of a double or step command that is given any state.
masked_fields :
    (state : ℕ) (select : Bool) (qu : ℕ)
    → state < 256
    → qu < 256
    → (qualifier (dcq_octet (bit_and state 0x03) select qu) ≡ qu % 32)
      × (bit_and (dcq_octet (bit_and state 0x03) select qu) 0x03 ≡ state % 4)
      × (flag (dcq_octet (bit_and state 0x03) select qu) 0x80 ≡ select)
masked_fields state select qu lt h =
    let e = bit_and-3 state lt in
    let (qualified, stated, selected) =
      dcq_fields (bit_and state 0x03) select qu (omega (arith, e)) h in
    (qualified, stated ∙ e, selected)

qos_fields :
    (select : Bool) (ql : ℕ)
    → ql < 256
    → (bit_and (with_select select (bit_and ql 0x7f)) 0x7f ≡ ql % 128)
      × (flag (with_select select (bit_and ql 0x7f)) 0x80 ≡ select)
qos_fields select ql h =
    let octet = with_select select (bit_and ql 0x7f) in
    let all =
      &&-true (bit_and octet 0x7f == ql % 128) (bool_eq (flag octet 0x80) select)
        (all_below-IsSound 256 (qos_right select) ql (qos_table select) h) in
    (ground (arith, all.0), bool_eq→eq _ _ all.1)

section_flag : (on : Bool) → flag (if on then 0x80 else 0) 0x80 ≡ on
section_flag true = refl
section_flag false = refl

file_flag : (on : Bool) → flag (if on then 0 else 0x80) 0x80 ≡ not on
file_flag true = refl
file_flag false = refl

module _ (ioa : ℕ) (on select : Bool) (state qualifier_given : ℕ) where
  -- For a state and a qualifier below 256, the accessors of a single, double or step command give what its
  -- create function took: the qualifier modulo 32, the state (modulo 4), and whether it selects; those of a
  -- short setpoint command the qualifier modulo 128 and whether it selects; a section ready says whether it
  -- is not ready; but a file ready says that it is positive exactly if it was created as not positive.
  pub created-fields :
      (value : FourOctets) (nof nos size : ℕ)
      → state < 256
      → qualifier_given < 256
      → (let single = (create_single_command ioa on select qualifier_given).value in
          let double = (create_double_command ioa state select qualifier_given).value in
          let step = (create_step_command ioa state select qualifier_given).value in
          let setpoint = (create_setpoint_command_short ioa value select qualifier_given).value in
          ((single_command_qu single ≡ qualifier_given % 32)
            × (single_command_state single ≡ on)
            × (single_command_is_select single ≡ select))
          × ((double_command_qu double ≡ qualifier_given % 32)
              × (double_command_state double ≡ state % 4)
              × (double_command_is_select double ≡ select))
          × ((step_command_qu step ≡ qualifier_given % 32)
              × (step_command_state step ≡ state % 4)
              × (step_command_is_select step ≡ select))
          × ((setpoint_command_short_ql setpoint ≡ qualifier_given % 128)
              × (setpoint_command_short_is_select setpoint ≡ select))
          × (section_ready_is_not_ready (create_section_ready ioa nof nos size on).value ≡ on)
          × (file_ready_is_positive (create_file_ready ioa nof size on).value ≡ not on))
  unfolding create_single_command create_double_command create_step_command
      create_setpoint_command_short create_section_ready create_file_ready single_command_qu
      single_command_state single_command_is_select double_command_qu double_command_state
      double_command_is_select step_command_qu step_command_state step_command_is_select
      setpoint_command_short_ql setpoint_command_short_is_select section_ready_is_not_ready
      file_ready_is_positive
  created-fields value nof nos size lt h =
      let double = masked_fields state select qualifier_given lt h in
      (
        sco_fields on select qualifier_given h,
        double,
        double,
        qos_fields select qualifier_given h,
        section_flag on,
        file_flag on,
      )
