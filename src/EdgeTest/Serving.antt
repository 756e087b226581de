-- ===== src/EdgeTest/Serving.antt =====
-- What serving a request does to the fake edge (internal/edgetest/edge.go: serve, respond).
use mitrity_go.Base.{
  sym, ◌∙◌, ◌||◌, eq_of_same, Bool-cases, ℕ, false, not, Bytes, codes, List, [], ◌∷◌, ◌++◌, ◌≡◌,
  refl, arith, same, inl, inr,
}
use mitrity_go.Admission.World.{HttpRequest}
use mitrity_go.Admission.Client.Messages.{header_token, header_version}
use mitrity_go.EdgeTest.Edge.{
  written, Edge, header_get, rotate_token, respond, refresh, authorize, route, recorded_of, serve,
  admit_response,
}
use mitrity_go.EdgeTest.Script.{Recorded, Response, Scripted}

-- The token file holds the token, and a newline.
abbrev pub HoldsToken : Edge → Type 0
HoldsToken e = e.file ≡ e.token ++ 10 ∷ []

-- The script stays, or its first response answers a request to /v1/admit that carries the token.
pub data Consumed (r : Recorded) (s : Scripted) (e e' : Edge) : Type 0 where
  kept : e'.script ≡ e.script → Consumed r s e e'
  used :
      (next : Response)
      → e.script ≡ next ∷ e'.script
      → s ≡ next r
      → r.path ≡ codes "/v1/admit"
      → header_get header_token r.header ≡ e'.token
      → e'.reject_all_tokens ≡ false
      → Consumed r s e e'

pub record Served (r : Recorded) (s : Scripted) (e e' : Edge) : Type 0 where
  pub requests : e'.requests ≡ e.requests
  pub holds_token : HoldsToken e → HoldsToken e'
  pub consumed : Consumed r s e e'

module _ (random : ℕ → Bytes) where
  rotate_token-Kept :
      (e : Edge)
      → ((rotate_token random e).requests ≡ e.requests)
        × HoldsToken (rotate_token random e)
        × ((rotate_token random e).script ≡ e.script)
  unfolding rotate_token
  rotate_token-Kept e = (refl, refl, refl)

  refresh-Kept :
      (e : Edge)
      → ((refresh random e).requests ≡ e.requests)
        × (HoldsToken e → HoldsToken (refresh random e))
        × ((refresh random e).script ≡ e.script)
  unfolding rotate_token
  refresh-Kept e = elim (Bool-cases e.rotate_on_next_request) [
    | inl h ↦ rw (h) (refl, λ k. refl, refl)
    | inr h ↦ rw (h) (refl, λ k. k, refl)
  ]

  admit_response-Served :
      (r : Recorded) (e : Edge) (script : List Response)
      → e.script ≡ script
      → r.path ≡ codes "/v1/admit"
      → header_get header_token r.header ≡ e.token
      → e.reject_all_tokens ≡ false
      → Served r (admit_response random r e script).0 e (admit_response random r e script).1
  admit_response-Served r e [] h p t n = record {
    requests = refl;
    holds_token = λ k. k;
    consumed = kept refl;
  }
  admit_response-Served r e (next ∷ rest) h p t n = record {
    requests = refl;
    holds_token = λ k. k;
    consumed = used next h refl p t n;
  }

  untouched : (r : Recorded) (s : Scripted) (e : Edge) → Served r s e e
  untouched r s e = record { requests = refl; holds_token = λ k. k; consumed = kept refl }

  route-Served :
      (r : Recorded) (e : Edge)
      → header_get header_token r.header ≡ e.token
      → e.reject_all_tokens ≡ false
      → Served r (route random r e).0 e (route random r e).1
  route-Served r e t n = elim (Bool-cases (same (header_get header_version r.header) (codes "1"))) [
    | inr h ↦ rw (h) (untouched r _ e)
    | inl h ↦ elim (Bool-cases (same r.path (codes "/v1/attest"))) [
      | inl a ↦ rw (h, a) (untouched r _ e)
      | inr a ↦ elim (Bool-cases (same r.path (codes "/v1/admit"))) [
        | inr b ↦ rw (h, a, b) (untouched r _ e)
        | inl b ↦
            rw (h, a, b)
              (admit_response-Served r e e.script refl (eq_of_same r.path (codes "/v1/admit") b) t
                n)
      ]
    ]
  ]

  authorize-Served :
      (r : Recorded) (e : Edge) → Served r (authorize random r e).0 e (authorize random r e).1
  authorize-Served r e =
      elim (Bool-cases
        (e.reject_all_tokens || not (same (header_get header_token r.header) e.token))) [
          | inl h ↦ rw (h) (untouched r _ e)
          | inr h ↦ rw (h) (route-Served r e (eq_of_same _ _ (ground arith)) (ground arith))
        ]

  Consumed-after :
      (r : Recorded) (s : Scripted) (e f g : Edge)
      → f.script ≡ e.script
      → Consumed r s f g
      → Consumed r s e g
  Consumed-after r s e f g c (kept same_script) = kept (same_script ∙ c)
  Consumed-after r s e f g c (used next script answer path token accepting) =
      used next (sym c ∙ script) answer path token accepting

  Served-after :
      (r : Recorded) (s : Scripted) (e f g : Edge)
      → f.requests ≡ e.requests
      → (HoldsToken e → HoldsToken f)
      → f.script ≡ e.script
      → Served r s f g
      → Served r s e g
  Served-after r s e f g q k c h = record {
    requests = h.requests ∙ q;
    holds_token = λ x. h.holds_token (k x);
    consumed = Consumed-after r s e f g c h.consumed;
  }

  respond-Served :
      (r : Recorded) (e : Edge) → Served r (respond random r e).0 e (respond random r e).1
  unfolding respond
  respond-Served r e = elim (Bool-cases (same r.path (codes "/healthz"))) [
    | inl h ↦ rw (h) (untouched r _ e)
    | inr h ↦
        let (q, k, c) = refresh-Kept e in
        rw (h)
          (Served-after r _ e (refresh random e) _ q k c (authorize-Served r (refresh random e)))
  ]

  -- When the token file of the fake edge holds its token, serving a request records it behind the
  -- earlier ones, keeps the file so, and answers with a scripted response; the script stays as it
  -- was, or its first response gave the answer to a request to /v1/admit that carries the token
  -- of an edge that does not reject all tokens.
  pub serve-Served :
      (req : HttpRequest) (e : Edge)
      → HoldsToken e
      → ((serve random req e).2.requests ≡ e.requests ++ recorded_of random req ∷ [])
        × HoldsToken (serve random req e).2
        × ((s : Scripted) × ((serve random req e).0 ≡ written random s)
            × Consumed (recorded_of random req) s e (serve random req e).2)
  unfolding serve
  serve-Served req e h =
      let r = recorded_of random req in
      let f = record e { requests = e.requests ++ r ∷ [] } in
      let served = respond-Served r f in
      (
        served.requests,
        served.holds_token h,
        (_, refl, Consumed-after r _ e f _ refl served.consumed),
      )
