-- ===== src/LinkLayer/Stations.antt =====
-- The stations of link_layer.c around their state machines: `LinkLayerBalanced`, and the receiving side
-- of the unbalanced master. Both get their messages from `HandleMessageBalancedAndPrimaryUnbalanced`.
use lib.Prelude.{ℕ, Bool, true, false, none, some, List, []}
use lib.LinkLayer.Frame.{fc_ack}
use lib.LinkLayer.Parser.{
  Balanced, discarded, single_char_ack, to_secondary, to_primary, parse_balanced,
}
use lib.LinkLayer.PrimaryBalanced.{Primary, Application}
use lib.LinkLayer.PrimaryBalanced
use lib.LinkLayer.PrimaryBalanced.Run
use lib.LinkLayer.SecondaryBalanced.{Secondary, Handler}
use lib.LinkLayer.SecondaryBalanced
use lib.LinkLayer.PrimaryUnbalanced.SlaveConnection
use lib.LinkLayer.PrimaryUnbalanced.{Master}
use lib.LinkLayer.PrimaryUnbalanced

-- `struct sLinkLayerBalanced`: both halves use the parameters, the line and the application of the
-- primary one.
pub record Station (A : Type 0) : Type 0 where
  pub primary : Primary A
  pub expected_fcb : Bool
  pub address : ℕ

module _ {A : Type 0} where
  abbrev pub secondary_of : Station A → Secondary A
  secondary_of s = record {
    expected_fcb = s.expected_fcb;
    parameters = s.primary.parameters;
    address = s.address;
    dir = s.primary.dir;
    app = s.primary.app;
    sent = s.primary.sent;
  }

  abbrev pub with_secondary : Secondary A → Station A → Station A
  with_secondary t s = record s {
    primary = record s.primary { app = t.app; sent = t.sent };
    expected_fcb = t.expected_fcb;
  }

  -- `LinkLayerPrimaryBalanced_resetIdleTimeout`
  abbrev pub reset_idle_timeout : ℕ → Station A → Station A
  reset_idle_timeout now s = record s { primary = record s.primary { last_received_msg = now } }

  -- `LinkLayerBalanced_sendLinkLayerTestFunction`
  abbrev pub send_link_layer_test_function : Station A → Station A
  send_link_layer_test_function s = record s {
    primary = record s.primary { send_link_layer_test_function = true };
  }

module _ {A : Type 0} (application : Application A) (handle_received_data : Handler A) where
  abbrev pub to_primary_half : ℕ → ℕ → Bool → Station A → Station A
  to_primary_half now fc dfc s = record s {
    primary = PrimaryBalanced.handle_message application now fc dfc s.primary;
  }

  abbrev pub take_message : ℕ → List ℕ → Balanced → Station A → Station A
  take_message now msg discarded s = s
  take_message now msg single_char_ack s = to_primary_half now fc_ack false s
  take_message now msg (to_secondary r) s = reset_idle_timeout now (
      with_secondary (SecondaryBalanced.handle_message handle_received_data r msg (secondary_of s))
        s)
  take_message now msg (to_primary fc dir dfc acd address layout) s = to_primary_half now fc dfc s

  -- `HandleMessageBalancedAndPrimaryUnbalanced` of a balanced station
  unfoldable pub receive : ℕ → List ℕ → ℕ → Station A → Station A
  receive now msg msg_size s =
      take_message now msg (parse_balanced s.primary.parameters.address_length msg msg_size) s

  -- `LinkLayerBalanced_run` after it read a message, or none.
  unfoldable pub run : ℕ → Station A → Station A
  run now s = record s { primary = Run.run_state_machine application now s.primary }

module _ {A : Type 0} (application : SlaveConnection.Application A) where
  abbrev pub take_answer : ℕ → List ℕ → Balanced → Master A → Master A
  take_answer now msg discarded m = m
  take_answer now msg single_char_ack m =
      PrimaryUnbalanced.handle_message application now
        (record {
          fc = fc_ack;
          acd = false;
          dfc = false;
          address = none;
          msg = [];
          user_data_start = 0;
          user_data_length = 0;
        })
        m
  take_answer now msg (to_secondary r) m = m
  take_answer now msg (to_primary fc dir dfc acd address layout) m =
      PrimaryUnbalanced.handle_message application now
        (record {
          fc = fc;
          acd = acd;
          dfc = dfc;
          address = some address;
          msg = msg;
          user_data_start = layout.user_data_start;
          user_data_length = layout.user_data_length;
        })
        m

  -- `HandleMessageBalancedAndPrimaryUnbalanced` of an unbalanced master
  unfoldable pub receive_answer : ℕ → List ℕ → ℕ → Master A → Master A
  receive_answer now msg msg_size m =
      take_answer now msg (parse_balanced m.parameters.address_length msg msg_size) m
