-- ===== src/Rpc/Logs/Streamed.antt =====
-- pkg/executor/rpc: the records that a server sends, as the client logs them.
use bonk.Base.{
  ℕ, zero, suc, ◌<◌, String, Bool, true, false, List, [], ◌∷◌, All, if◌then◌else◌, ◌==◌, Bool-cases,
  inl, inr, ◌≡◌, refl, sym, ◌∙◌, ap, subst,
}
use mathlib.Core.List.{Permᴰ}
use bonk.Errors.{Error, eof}
use bonk.Task.Value.{Value}
use bonk.Rpc.{Proto, Converted, converted, Coder}
use bonk.Rpc.Convert.{IsSent, IsStructpb, depth, to_proto_value-as_interface}
use bonk.Rpc.Logs.{
  LogStreaming, LogRecord, Received, failed, has_key, attrs_to_proto, sent_attrs, is_enabled,
  handle, stream, go_on, Logged, logged, receive_error, values_of, handle_log_streaming, is_eof,
  Orders, later, message_of,
}

-- The same records, with their attributes in any order.
abbrev pub SameRecords : List Logged → List Logged → Type 0
SameRecords [] [] = Unit
SameRecords (logged level msg attrs ∷ xs) (logged level' msg' attrs' ∷ ys) =
    (level ≡ level') × (msg ≡ msg') × Permᴰ attrs attrs' × SameRecords xs ys
SameRecords _ _ = ⊥

module _ (fuel : ℕ) where
  -- The attributes can be sent, and no two have one key.
  abbrev pub AreSent : List (String × Value) → Type 0
  AreSent [] = Unit
  AreSent ((key, v) ∷ rest) =
      IsSent v × (depth v < fuel) × (has_key key rest ≡ false) × AreSent rest

module _ (coder : Coder) (law : IsStructpb coder) (fuel : ℕ) (lost : Error)
    (options : LogStreaming) where
  has_key-values_of :
      (key : String) (ps : List (String × Proto))
      → has_key key (values_of coder ps) ≡ has_key key ps
  unfolding has_key
  has_key-values_of key [] = refl
  has_key-values_of key ((k, p) ∷ ps) = elim (Bool-cases (k == key)) [
    | inl e ↦ rw e refl
    | inr e ↦ rw e (has_key-values_of key ps)
  ]

  attrs_to_proto-values_of :
      (attrs : List (String × Value))
      → AreSent fuel attrs
      → (ps : List (String × Proto)) × (attrs_to_proto coder fuel lost attrs ≡ converted ps)
        × (values_of coder ps ≡ attrs)
  unfolding attrs_to_proto
  attrs_to_proto-values_of [] h = ([], refl, refl)
  attrs_to_proto-values_of ((key, v) ∷ attrs) (s, d, new, h) =
      let (p, c, a) = to_proto_value-as_interface coder law fuel v s d in
      let (ps, e, b) = attrs_to_proto-values_of attrs h in
      let fresh : has_key key ps ≡ false =
        sym (has_key-values_of key ps) ∙ ap (has_key key) b ∙ new in
      ((key, p) ∷ ps, rw (c, attrs_to_proto, e, fresh) refl, rw (a, b) refl)

  -- What the client logs of the records.
  abbrev pub shown : List LogRecord → List Logged
  shown [] = []
  shown (r ∷ rs) =
      if is_enabled coder fuel lost options r
      then logged r.level r.text (sent_attrs coder fuel lost options r) ∷ shown rs
      else shown rs

  record_shown :
      (order : Orders) (r : LogRecord) (rest : List Received)
      → AreSent fuel (sent_attrs coder fuel lost options r)
      → handle_log_streaming coder order
          (go_on coder fuel lost (handle coder fuel lost options r) rest)
        ≡ (
          logged r.level r.text (order 0 (sent_attrs coder fuel lost options r))
              ∷ (handle_log_streaming coder (later order) rest).0,
          (handle_log_streaming coder (later order) rest).1,
        )
  unfolding handle handle_log_streaming
  record_shown order r rest h =
      let (ps, e, b) = attrs_to_proto-values_of (sent_attrs coder fuel lost options r) h in
      ap
        (λ (c : Converted (List (String × Proto))).
          handle_log_streaming coder order
            (go_on coder fuel lost (message_of coder fuel lost r c) rest))
        e
      ∙ ap
          (λ as_. (
            logged r.level r.text (order 0 as_) ∷ (handle_log_streaming coder (later order) rest).0,
            (handle_log_streaming coder (later order) rest).1,
          ))
          b

  abbrev Shows : List Logged × Bool → List Logged → Type 0
  Shows out expected = SameRecords out.0 expected × (out.1 ≡ true)

  ends : (order : Orders) → Shows (handle_log_streaming coder order (failed eof false ∷ [])) []
  unfolding handle_log_streaming is_eof
  ends order = (tt, refl)

  -- Let package structpb be as documented, and the attributes of all records values that can be
  -- sent, with different keys in a record. Let a loop over a map go in any order. Then the client logs exactly the records of the level asked for, in order, with their level,
  -- their text and their attributes as they were, these in any order; and the loop ends at the end
  -- of the stream.
  pub handle_log_streaming-stream :
      (order : Orders) (rs : List LogRecord)
      → ((n : ℕ) (attrs : List (String × Value)) → Permᴰ (order n attrs) attrs)
      → All (λ (r : LogRecord). AreSent fuel (sent_attrs coder fuel lost options r)) rs
      → (let out =
            handle_log_streaming coder order
              (stream coder fuel lost options rs (failed eof false ∷ [])) in
          SameRecords out.0 (shown rs) × (out.1 ≡ true))
  unfolding stream
  handle_log_streaming-stream order [] perm h = ends order
  handle_log_streaming-stream order (r ∷ rs) perm (h, hs) =
      elim (Bool-cases (is_enabled coder fuel lost options r)) [
        | inl e ↦
            let ih = handle_log_streaming-stream (later order) rs (λ n. perm (suc n)) hs in
            let attrs = sent_attrs coder fuel lost options r in
            rw e (
              subst (λ out. Shows out (logged r.level r.text attrs ∷ shown rs))
                (sym (record_shown order r _ h)) ((refl, refl, perm 0 attrs, ih.0), ih.1))
        | inr e ↦ rw e (handle_log_streaming-stream order rs perm hs)
      ]

abbrev pub repeat {ℓ} : {A : Type ℓ} → ℕ → A → List A
repeat zero a = []
repeat (suc n) a = a ∷ repeat n a

-- An error that is not the end of the stream, and that every later receive gives again while the
-- stream's context has not ended, is logged once for each receive, and the loop does not end,
-- however often it has received it.
handle_log_streaming-repeat :
    (coder : Coder) (order : Orders) (e : Error) (n : ℕ)
    → is_eof e ≡ false
    → handle_log_streaming coder order (repeat n (failed e false))
      ≡ (repeat n (receive_error e), false)
unfolding handle_log_streaming
handle_log_streaming-repeat coder order e zero not_end = refl
handle_log_streaming-repeat coder order e (suc n) not_end =
    let ih = handle_log_streaming-repeat coder (later order) e n not_end in rw (not_end, ih) refl
