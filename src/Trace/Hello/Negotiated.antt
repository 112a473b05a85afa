-- ===== src/Trace/Hello/Negotiated.antt =====
-- cmd/dropline/trace.go against serve.go: the reverse stream that both sides settle on.
use dropline.Prelude.{
  ℕ, String, str_eq, List, [], ◌∷◌, Bool, true, false, not, ◌||◌, some, some_eq, ◌==◌,
  if◌then◌else◌, ◌≡◌, refl, ap, subst, ◌∙◌, arith, Bool-cases, inl, inr,
}
use dropline.Control.Messages.{Ready}
use dropline.Serve.Admission.{resolve_reverse_stream}
use dropline.Trace.Args.{Mode, auto, on, off, mode_text}
use dropline.Trace.Hello.{mint, mint_other, reverse_flow_id_of, reverse_stream_on}

abbrev pub is_off : Mode → Bool
is_off off = true
is_off on = false
is_off auto = false

-- A drawn id is neither 0 nor the forward one.
mint_other-IsFresh :
    (flow_id : ℕ) (draws : List ℕ) (r : ℕ)
    → mint_other flow_id draws ≡ some r
    → ((r == 0) ≡ false) × ((r == flow_id) ≡ false)
unfolding mint_other mint
mint_other-IsFresh flow_id [] r h = cc
mint_other-IsFresh flow_id (d ∷ draws) r h = elim (Bool-cases (mint d == flow_id)) [
  | inl taken ↦ mint_other-IsFresh flow_id draws r (ground arith)
  | inr free ↦
      let e : mint d ≡ r = some_eq (ground arith) in
      (ground arith, subst (λ (k : ℕ). (k == flow_id) ≡ false) e free)
]

resolved_on :
    (pref : String) (r flow_id : ℕ)
    → str_eq pref "off" ≡ false
    → (str_eq pref "on" || str_eq pref "auto") ≡ true
    → (r == 0) ≡ false
    → (r == flow_id) ≡ false
    → resolve_reverse_stream pref r flow_id ≡ ("on", r)
unfolding resolve_reverse_stream
resolved_on pref r flow_id a b c d = rw (a, b, c, d) refl

settled :
    (m : Mode) (r flow_id : ℕ)
    → is_off m ≡ false
    → (r == 0) ≡ false
    → (r == flow_id) ≡ false
    → resolve_reverse_stream (mode_text m) r flow_id ≡ ("on", r)
unfolding mode_text
settled on r flow_id a b c = resolved_on "on" r flow_id refl refl b c
settled auto r flow_id a b c = resolved_on "auto" r flow_id refl refl b c
settled off r flow_id a b c = cc

agreed :
    (m : Mode) (flow_id r : ℕ) (ready : Ready)
    → is_off m ≡ false
    → ((r == 0) ≡ false) × ((r == flow_id) ≡ false)
    → ready.reverse_stream ≡ (resolve_reverse_stream (mode_text m) r flow_id).0
    → ready.reverse_flow_id ≡ (resolve_reverse_stream (mode_text m) r flow_id).1
    → (reverse_stream_on ready r ≡ not (is_off m))
      × (resolve_reverse_stream (mode_text m) r flow_id
          ≡ (if is_off m then ("off", 0) else ("on", r)))
unfolding reverse_stream_on
agreed m flow_id r ready live (nonzero, other) word id =
    let on_now = settled m r flow_id live nonzero other in
    let said : ready.reverse_stream ≡ "on" = word ∙ ap (λ (p : String × ℕ). p.0) on_now in
    let echoed : ready.reverse_flow_id ≡ r = id ∙ ap (λ (p : String × ℕ). p.1) on_now in
    (rw (reverse_stream_on, said, echoed, nonzero, live) (ground arith), rw live on_now)

-- A server that resolves the reverse stream of a client's Hello and echoes what it comes to, and the
-- client that reads the echo, agree: for a reverse flow id that the client drew, the client takes
-- the stream for on exactly if its own preference is not off, and then the server has resolved it to
-- "on" with that id; else the server has resolved it to "off" and 0.
pub reverse_stream_agreed :
    (m : Mode) (flow_id r : ℕ) (draws : List ℕ) (ready : Ready)
    → reverse_flow_id_of m flow_id draws ≡ some r
    → ready.reverse_stream ≡ (resolve_reverse_stream (mode_text m) r flow_id).0
    → ready.reverse_flow_id ≡ (resolve_reverse_stream (mode_text m) r flow_id).1
    → (reverse_stream_on ready r ≡ not (is_off m))
      × (resolve_reverse_stream (mode_text m) r flow_id
          ≡ (if is_off m then ("off", 0) else ("on", r)))
unfolding reverse_flow_id_of reverse_stream_on
reverse_stream_agreed off flow_id r draws ready drawn word id =
    let off_now : resolve_reverse_stream (mode_text off) r flow_id ≡ ("off", 0) =
      unfold resolve_reverse_stream mode_text in refl in
    (rw (word ∙ ap (λ (p : String × ℕ). p.0) off_now) refl, off_now)
reverse_stream_agreed on flow_id r draws ready drawn word id =
    agreed on flow_id r ready refl (mint_other-IsFresh flow_id draws r drawn) word id
reverse_stream_agreed auto flow_id r draws ready drawn word id =
    agreed auto flow_id r ready refl (mint_other-IsFresh flow_id draws r drawn) word id
