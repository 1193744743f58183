-- ===== src/Check/Http/Inversion.antt =====
-- What a successful step of the loop in internal/check/http_history.go did.
use Prim.Native.Nat.{max}
use quorum_log.Prelude.{
  ℕ, ◌≡◌, true, false, none, some, [], ◌∷◌, ◌++◌, arith, ◌==◌, string_eq, ok, Option-cases,
  Bool-cases, inl, inr,
}
use quorum_log.Prelude.GoMap
use quorum_log.Check.{Operation, KvInput, KvOutput}
use quorum_log.Check.Http.{
  Event, Pending, Scan, valid_at, is_supported, scan_invocation, scan_response, scan_event,
}

abbrev pub pending : Event → ℕ → KvInput → Pending
pending event at input = record { client = event.client_id; input = input; call = at }

abbrev pub after_invocation : Scan → Event → ℕ → KvInput → Scan
after_invocation s event at input = record s {
  seen = GoMap.put s.seen event.id true;
  opened = GoMap.put s.opened event.id (pending event at input);
}

abbrev pub completed : Pending → KvOutput → ℕ → Operation
completed p out at = record {
  client_id = p.client;
  input = p.input;
  call = p.call;
  output = out;
  return = at;
}

abbrev pub after_response : Scan → Event → ℕ → Pending → KvOutput → Scan
after_response s event at p out = record s {
  opened = GoMap.delete s.opened event.id;
  operations = s.operations ++ completed p out at ∷ [];
}

abbrev pub at_time : Scan → ℕ → Scan
at_time s at = record s { end = max s.end at }

pub data Scanned (s : Scan) (event : Event) (t : Scan) : Type 0 where
  invoked :
      (at : ℕ) (input : KvInput)
      → valid_at event.at ≡ some at
      → event.input ≡ some input
      → is_supported input.op ≡ true
      → GoMap.get_or s.seen event.id false ≡ false
      → t ≡ after_invocation (at_time s at) event at input
      → Scanned s event t
  responded :
      (at : ℕ) (p : Pending) (out : KvOutput)
      → valid_at event.at ≡ some at
      → event.input ≡ none
      → event.output ≡ some out
      → GoMap.get s.opened event.id ≡ some p
      → t ≡ after_response (at_time s at) event at p out
      → Scanned s event t

invocation_ok :
    (s : Scan) (event : Event) (at : ℕ) (input : KvInput) {t : Scan}
    → scan_invocation s event at input ≡ ok t
    → (is_supported input.op ≡ true)
      × (GoMap.get_or s.seen event.id false ≡ false)
      × (t ≡ after_invocation s event at input)
unfolding scan_invocation
invocation_ok s event at input e = ground arith

response_ok :
    (s : Scan) (event : Event) (at : ℕ) {t : Scan}
    → scan_response s event at ≡ ok t
    → (p : Pending) × (out : KvOutput) × (event.output ≡ some out)
      × (GoMap.get s.opened event.id ≡ some p)
      × (t ≡ after_response s event at p out)
unfolding scan_response
response_ok s event at e = elim (Option-cases event.output) [
  | inl silent ↦ absurd (ground arith)
  | inr (out, given) ↦ elim (Option-cases (GoMap.get s.opened event.id)) [
    | inl unopened ↦ absurd (ground arith)
    | inr (p, found) ↦ (p, out, given, found, ground arith)
  ]
]

pub scan_event_ok :
    (s : Scan) (event : Event) {t : Scan} → scan_event s event ≡ ok t → Scanned s event t
unfolding scan_event
scan_event_ok s event e = elim (Option-cases (valid_at event.at)) [
  | inl bad ↦ absurd (ground arith)
  | inr (at, valid) ↦ elim (Bool-cases (event.id == "")) [
    | inl nameless ↦ absurd (ground arith)
    | inr named ↦ elim (Option-cases event.input) [
      | inl missing ↦
          let (p, out, given, found, same) = response_ok (at_time s at) event at (ground arith) in
          Scanned.responded at p out valid missing given found same
      | inr (input, given) ↦
          let (kind, fresh, same) = invocation_ok (at_time s at) event at input (ground arith) in
          Scanned.invoked at input valid given kind fresh same
    ]
  ]
]
