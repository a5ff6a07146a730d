-- ===== src/Power/Backends/Replies.antt =====
-- The reply that `MitosPowerBackend::call` waits for (src/power/mitos_power.rs), and what it means for
-- a suspension (src/power/suspend.rs).
use mitos_session.Base.{
  Text, bytes, same_text_eq, lit, Message, ◌≡◌, refl, ap, ◌∙◌, ◌↔◌, ◌⊎◌, inl, inr, Bool, true,
  false, Option, none, some, List, [], ◌∷◌, arith, Bool-cases, Option-cases, is_empty,
}
use mitos_session.Base.Lines.{trim}
use mitos_session.Errors.{Result, ok, err, protocol}
use mitos_session.Power.Backends.{
  LineEnd, at_end, failing, PowerSocket, Json, and_then, is_response, verdict, closed_early,
  line_result, await_reply, call,
}

and_then-some :
    {A B : Type 0} (o : Option A) (f : A → Option B) (b : B)
    → and_then o f ≡ some b
    → (a : A) × (o ≡ some a) × (f a ≡ some b)
and_then-some none f b h = absurd (ground (arith, h))
and_then-some (some a) f b h = (a, refl, h)

module _ {Value : Type 0} (json : Json Value) where
  -- The value has a field `kind` with the string "response".
  abbrev pub IsResponse : Value → Type 0
  IsResponse value =
      (v : Value) × (json.get (bytes "kind") value ≡ some v)
      × (json.as_str v ≡ some (bytes "response"))

  -- The value has a field `ok` that is true.
  abbrev pub SaysOk : Value → Type 0
  SaysOk value = (v : Value) × (json.get (bytes "ok") value ≡ some v) × (json.as_bool v ≡ some true)

  is_response-IsResponse :
      (value : Value) (k : Option Text)
      → and_then (json.get (bytes "kind") value) json.as_str ≡ k
      → is_response json value ≡ true
      → IsResponse value
  is_response-IsResponse value none e h = absurd (ground (arith, e, h))
  is_response-IsResponse value (some k) e h =
      let same : k ≡ bytes "response" = same_text_eq k (bytes "response") (ground (arith, e, h)) in
      and_then-some (json.get (bytes "kind") value) json.as_str (bytes "response")
        (e ∙ ap some same)

  is_response-true : (value : Value) → IsResponse value → is_response json value ≡ true
  is_response-true value (v, got, text) = ground (arith, got, text)

  -- A value is a response or is not one.
  IsResponse-cases :
      (value : Value)
      → (IsResponse value × (is_response json value ≡ true))
        ⊎ ((¬ IsResponse value) × (is_response json value ≡ false))
  IsResponse-cases value = elim (Bool-cases (is_response json value)) [
    | inl e ↦ inl (
      is_response-IsResponse value (and_then (json.get (bytes "kind") value) json.as_str) refl e,
      e,
    )
    | inr e ↦ inr (λ r. let z = is_response-true value r in ground (arith, e, z), e)
  ]

  -- The line is JSON for a response that says `"ok": true`.
  abbrev pub IsAccepted : Text → Type 0
  IsAccepted raw =
      (is_empty raw ≡ false)
      × (is_empty (trim raw) ≡ false)
      × (value : Value) × (json.from_str (trim raw) ≡ inr value)
      × IsResponse value
      × SaysOk value

  -- The line is blank, or JSON of another kind.
  abbrev pub IsSkipped : Text → Type 0
  IsSkipped raw =
      (is_empty raw ≡ false)
      × ((is_empty (trim raw) ≡ true)
          ⊎ ((value : Value) × (json.from_str (trim raw) ≡ inr value) × (¬ IsResponse value)))

  -- Lines that are skipped, and then one that is accepted.
  abbrev pub Accepts : List Text → Type 0
  Accepts [] = ⊥
  Accepts (raw ∷ rest) = IsAccepted raw ⊎ (IsSkipped raw × Accepts rest)

  line-accepted : (method raw : Text) → IsAccepted raw → line_result json method raw ≡ some (ok tt)
  line-accepted method raw (ne, filled, value, parsed, response, (v, got, positive)) =
      let kind = is_response-true value response in
      ground (arith, ne, filled, parsed, kind, got, positive)

  line-skipped : (method raw : Text) → IsSkipped raw → line_result json method raw ≡ none
  line-skipped method raw (ne, inl blank) = ground (arith, ne, blank)
  line-skipped method raw (ne, inr (value, parsed, kind)) =
      elim (Bool-cases (is_empty (trim raw))) [
        | inl e ↦ ground (arith, ne, e)
        | inr e ↦ elim (IsResponse-cases value) [
          | inl (response, _) ↦ absurd (kind response)
          | inr (_, other) ↦ ground (arith, ne, e, parsed, other)
        ]
      ]

  -- The verdict is positive only if the value says so.
  positive-verdict :
      (method : Text) (value : Value) (o : Option Bool)
      → and_then (json.get (bytes "ok") value) json.as_bool ≡ o
      → verdict json method value ≡ ok tt
      → o ≡ some true
  positive-verdict method value none e h = absurd (ground (arith, e, h))
  positive-verdict method value (some true) e h = refl
  positive-verdict method value (some false) e h = absurd (ground (arith, e, h))

  -- A line that gives no result is skipped, and one that gives success is accepted.
  abbrev Read : Text → Option (Result (Unit {0})) → Type 0
  Read raw none = IsSkipped raw
  Read raw (some (ok u)) = IsAccepted raw
  Read raw (some (err e)) = Unit

  verdict-Read :
      (method raw : Text) (value : Value) (r : Result (Unit {0}))
      → is_empty raw ≡ false
      → is_empty (trim raw) ≡ false
      → json.from_str (trim raw) ≡ inr value
      → IsResponse value
      → verdict json method value ≡ r
      → Read raw (some r)
  verdict-Read method raw value (err e) ne filled parsed kind v = tt
  verdict-Read method raw value (ok tt) ne filled parsed kind v =
      let o = and_then (json.get (bytes "ok") value) json.as_bool in
      let says_ok =
        and_then-some (json.get (bytes "ok") value) json.as_bool true
          (positive-verdict method value o refl v) in
      (ne, filled, value, parsed, kind, says_ok)

  value-Read :
      (method raw : Text) (o : Message ⊎ Value)
      → is_empty raw ≡ false
      → is_empty (trim raw) ≡ false
      → json.from_str (trim raw) ≡ o
      → Read raw (line_result json method raw)
  value-Read method raw (inl e) ne filled parsed =
      let same : line_result json method raw
          ≡ some (err (protocol (lit "parsing mitos-power reply: " ∷ e))) =
        ground (arith, ne, filled, parsed) in
      rw same tt
  value-Read method raw (inr value) ne filled parsed = elim (IsResponse-cases value) [
    | inl (response, kind) ↦
        let same : line_result json method raw ≡ some (verdict json method value) =
          ground (arith, ne, filled, parsed, kind) in
        rw same
          (verdict-Read method raw value (verdict json method value) ne filled parsed response refl)
    | inr (other, kind) ↦
        let same : line_result json method raw ≡ none = ground (arith, ne, filled, parsed, kind) in
        rw same (ne, inr (value, parsed, other))
  ]

  line-Read : (method raw : Text) → Read raw (line_result json method raw)
  line-Read method raw = elim (Bool-cases (is_empty raw)) [
    | inl e ↦
        let same : line_result json method raw ≡ some (err (closed_early json)) =
          ground (arith, e) in
        rw same tt
    | inr ne ↦ elim (Bool-cases (is_empty (trim raw))) [
      | inl blank ↦
          let same : line_result json method raw ≡ none = ground (arith, ne, blank) in
          rw same (ne, inl blank)
      | inr filled ↦ value-Read method raw (json.from_str (trim raw)) ne filled refl
    ]
  ]

  await-found :
      (method : Text) (raws : List Text) (line_end : LineEnd)
      → Accepts raws
      → await_reply json method raws line_end ≡ ok tt
  unfolding await_reply
  await-found method [] line_end h = absurd h
  await-found method (raw ∷ rest) line_end (inl h) = ground (arith, line-accepted method raw h)
  await-found method (raw ∷ rest) line_end (inr (h, k)) =
      ground (arith, line-skipped method raw h, await-found method rest line_end k)

  await-Accepts :
      (method : Text) (raws : List Text) (line_end : LineEnd)
      → await_reply json method raws line_end ≡ ok tt
      → Accepts raws
  unfolding await_reply
  await-Accepts method [] at_end h = absurd (ground (arith, h))
  await-Accepts method [] (failing e) h = absurd (ground (arith, h))
  await-Accepts method (raw ∷ rest) line_end h = elim (Option-cases (line_result json method raw)) [
    | inl e ↦
        let skipped = line-Read method raw in
        let after : await_reply json method rest line_end ≡ ok tt = ground (arith, h, e) in
        inr (rw e at skipped, await-Accepts method rest line_end after)
    | inr (r, e) ↦
        let success : r ≡ ok tt = ground (arith, h, e) in
        let at : line_result json method raw ≡ some (ok tt) = e ∙ ap some success in
        let accepted = line-Read method raw in inl (rw at at accepted)
  ]

  -- Every step of setting the connection up succeeds.
  abbrev pub IsReady : PowerSocket → Text → Type 0
  IsReady socket method =
      (socket.connecting ≡ none)
      × (socket.read_timeout ≡ none)
      × (socket.cloning ≡ none)
      × (socket.write_timeout ≡ none)
      × (socket.encoding method ≡ none)
      × (socket.sending method ≡ none)

  -- A call to mitos-power succeeds exactly when the connection is set up and the request is written
  -- without an error, and behind lines that are blank, or JSON whose `kind` is not "response", comes one whose `kind` is
  -- "response" and that says `"ok": true`. Every other course, the end of the stream included, is an error.
  pub call-ok_iff :
      (socket_path : Text) (socket : PowerSocket) (method : Text)
      → (call json socket_path socket method ≡ ok tt)
        ↔ (IsReady socket method × Accepts socket.incoming)
  unfolding call
  call-ok_iff socket_path socket method = (
    λ h. (
      ground (arith, h),
      await-Accepts method socket.incoming socket.line_end (ground (arith, h)),
    ),
    λ (ready, h). ground (arith, ready, await-found method socket.incoming socket.line_end h),
  )
