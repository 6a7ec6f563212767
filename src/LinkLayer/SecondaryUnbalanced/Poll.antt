-- ===== src/LinkLayer/SecondaryUnbalanced/Poll.antt =====
-- A repeated request for user data at `LinkLayerSecondaryUnbalanced_handleMessage`.
use lib.Prelude.{
  ℕ, ◌<◌, true, false, not, List, Option, ◌≡◌, refl, sym, ap, ◌∙◌, ◌==◌, bool_eq, ◌⊎◌, inl, inr,
  if◌then◌else◌, bool_eq-true, arith, take, lt→ltb,
}
use lib.Prelude.Bytes.{u8}
use lib.LinkLayer.Frame.{
  available, variable_length_frame, send, fc_request_user_data_class_1,
  fc_request_user_data_class_2, fc_resp_user_data,
}
use lib.LinkLayer.Parser.{Request}
use lib.LinkLayer.SecondaryUnbalanced.{
  Secondary, Application, Reply, in_buffer, set_state, send_variable, answer_data, repeat_data,
  fetch_data, request_data, handle_message,
}
use lib.LinkLayer.SecondaryUnbalanced.Repeat.{check_new-new, check_new-old, set_state-available}

u8-lt : (n : ℕ) → n < 256 → u8 n ≡ n
u8-lt n h = omega arith

module _ {A : Type 0} (application : Application A) where
  -- What the application layer gives for a request, by its function code.
  abbrev pub get_data : ℕ → A → List ℕ → Reply × List ℕ × A
  get_data fc =
      if fc == fc_request_user_data_class_2
      then application.get_class_2_data
      else application.get_class_1_data

  -- A request for user data of class 1 or 2.
  abbrev pub IsPoll : Request → Type 0
  IsPoll r = (r.fc ≡ fc_request_user_data_class_1) ⊎ (r.fc ≡ fc_request_user_data_class_2)

  handle_message-poll :
      (r : Request) (msg : List ℕ) (s : Secondary A)
      → IsPoll r
      → handle_message application r msg s
        ≡ request_data application (get_data r.fc) r (set_state application available s)
  unfolding handle_message
  handle_message-poll r msg s (inl h) = rw (h) refl
  handle_message-poll r msg s (inr h) = rw (h) refl

  -- The frame that carries the user data in the buffer.
  abbrev data_frame : Secondary A → Option (List ℕ)
  data_frame q =
      variable_length_frame q.parameters.address_length fc_resp_user_data q.address false false
        (application.is_class_1_data_available q.app) false
        (take q.user_data_size q.user_data_buffer)

  abbrev sent_data : Secondary A → Secondary A
  sent_data q = record q { sent = send (data_frame q) q.sent }

  repeat_data-sent_data :
      (q : Secondary A) → 0 < q.user_data_size → repeat_data application q ≡ sent_data q
  unfolding repeat_data answer_data send_variable
  repeat_data-sent_data q h = rw (lt→ltb 0 q.user_data_size h) refl

  -- The station when it has a new message in its buffer.
  abbrev fetched : ℕ → List ℕ → A → Secondary A → Secondary A
  fetched n buffer app s = record s { user_data_buffer = buffer; user_data_size = n; app = app }

  fetch_data-sent_data :
      (get : A → List ℕ → Reply × List ℕ × A) (n : ℕ) (buffer : List ℕ) (app : A) (s : Secondary A)
      → n < 256
      → get s.app s.user_data_buffer ≡ (in_buffer n, buffer, app)
      → fetch_data application get s ≡ sent_data (fetched n buffer app s)
  unfolding fetch_data answer_data send_variable
  fetch_data-sent_data get n buffer app s hn hg = rw (hg, u8-lt n hn) refl

  request_data-new :
      (get : A → List ℕ → Reply × List ℕ × A) (r : Request) (n : ℕ) (buffer : List ℕ) (app : A)
      (s : Secondary A)
      → n < 256
      → get s.app s.user_data_buffer ≡ (in_buffer n, buffer, app)
      → r.fcv ≡ true
      → bool_eq r.fcb s.expected_fcb ≡ true
      → request_data application get r s
        ≡ sent_data (fetched n buffer app (record s { expected_fcb = not s.expected_fcb }))
  unfolding request_data
  request_data-new get r n buffer app s hn hg hv hb =
      rw (check_new-new application r s hv hb) (
        fetch_data-sent_data get n buffer app (record s { expected_fcb = not s.expected_fcb }) hn
          hg)

  request_data-old :
      (get : A → List ℕ → Reply × List ℕ × A) (r : Request) (s : Secondary A)
      → r.fcv ≡ true
      → s.expected_fcb ≡ not r.fcb
      → 0 < s.user_data_size
      → request_data application get r s ≡ sent_data s
  unfolding request_data
  request_data-old get r s hv hb h =
      rw (check_new-old application r s hv hb) (repeat_data-sent_data s h)

  -- A new request for user data of class 1 or 2 at an available station, which the application layer
  -- answers with a message of 1 to 255 octets in the station's buffer: when the request arrives again
  -- with the same frame count bit, the same octets are sent again and nothing else changes, so
  -- the application layer is not asked for another message. (If the message does not fit into a
  -- frame, nothing is sent either time.)
  pub poll_repeated :
      (r : Request) (msg : List ℕ) (n : ℕ) (buffer : List ℕ) (app : A) (s : Secondary A)
      → IsPoll r
      → r.fcv ≡ true
      → bool_eq r.fcb s.expected_fcb ≡ true
      → s.state ≡ available
      → get_data r.fc s.app s.user_data_buffer ≡ (in_buffer n, buffer, app)
      → 0 < n
      → n < 256
      → (m : Option (List ℕ)) × ((handle_message application r msg s).sent ≡ send m s.sent)
        × (handle_message application r msg (handle_message application r msg s)
            ≡ record (handle_message application r msg s) { sent = send m (send m s.sent) })
  poll_repeated r msg n buffer app s poll hv hb hs hg hp hn =
      let q = fetched n buffer app (record s { expected_fcb = not s.expected_fcb }) in
      let e =
        handle_message-poll r msg s poll
        ∙ ap (request_data application (get_data r.fc) r) (set_state-available application s hs)
        ∙ request_data-new (get_data r.fc) r n buffer app s hn hg hv hb in
      let again =
        handle_message-poll r msg (sent_data q) poll
        ∙ ap (request_data application (get_data r.fc) r)
            (set_state-available application (sent_data q) hs)
        ∙ request_data-old (get_data r.fc) r (sent_data q) hv (bool_eq-true r.fcb s.expected_fcb hb)
            hp in
      (
        data_frame q,
        ap (λ u. u.sent) e,
        ap (handle_message application r msg) e
            ∙ again
            ∙ ap {A = Secondary A} {B = Secondary A}
                (λ u. record u { sent = send (data_frame q) (send (data_frame q) s.sent) }) (sym e),
      )
