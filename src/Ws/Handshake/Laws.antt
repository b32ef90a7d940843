-- ===== src/Ws/Handshake/Laws.antt =====
-- When the handshake succeeds, and when it panics.
use hcnet.Base.{
  eq_bytes, ap, ◌∙◌, sym, ℕ, ◌≡◌, ◌↔◌, true, false, List, [], ◌∷◌, Option, none, some, codes, arith,
  refl, All, ◌≢◌, ◌⊎◌, inl, inr, Bool-cases,
}
use hcnet.Error.{NetResult, NetError, ok, err}
use hcnet.Ws.Handshake.{
  HandshakeApi, Outcome, returned, panicked, is_13, is_separator, protocols, split, extend,
  non_empty, build_accept, build_request, switching, answer, check, or_chat, bad_version,
}

abbrev pub AllSeparators : List ℕ → Type 0
AllSeparators = All (λ c. is_separator c ≡ true)

extend-ne-nil : (c : ℕ) (pieces : List (List ℕ)) → non_empty (extend c pieces) ≢ []
unfolding extend non_empty
extend-ne-nil c [] e = cc
extend-ne-nil c (piece ∷ pieces) e = cc

-- A text names no protocol exactly when it holds nothing but commas and spaces.
protocols_none : (p : List ℕ) → (protocols p ≡ []) ↔ AllSeparators p
unfolding protocols
protocols_none [] = ((λ _. tt), λ _. refl)
protocols_none (c ∷ p) = elim (Bool-cases (is_separator c)) [
  | inl sep ↦
      rw (sep, protocols) ((λ e. (refl, (protocols_none p).0 e)), λ h. (protocols_none p).1 h.1)
  | inr letter ↦ rw (letter, protocols) ((λ e. absurd (extend-ne-nil c (split p) e)), λ h. cc)
]

eq_bytes_sound : (xs ys : List ℕ) → eq_bytes xs ys ≡ true → xs ≡ ys
unfolding eq_bytes
eq_bytes_sound [] [] e = refl
eq_bytes_sound [] (y ∷ ys) e = cc
eq_bytes_sound (x ∷ xs) [] e = cc
eq_bytes_sound (x ∷ xs) (y ∷ ys) e = ground (arith, eq_bytes_sound xs ys)

is_13-eq : (v : Option (List ℕ)) → is_13 v ≡ true → v ≡ some (codes "13")
unfolding is_13
is_13-eq none e = cc
is_13-eq (some v) e = ap some (eq_bytes_sound v (codes "13") e)

other_13 : (v : Option (List ℕ)) → is_13 v ≡ false → v ≢ some (codes "13")
unfolding is_13 eq_bytes
other_13 v h e = cc (rw e at h)

module _ (E : Type 0) (api : HandshakeApi) where
  open api use {Request, Response, header, respond}

  abbrev pub key_of : Request → Option (List ℕ)
  key_of req = header req (codes "Sec-WebSocket-Key")

  abbrev pub protocol_of : Request → Option (List ℕ)
  protocol_of req = header req (codes "Sec-WebSocket-Protocol")

  abbrev pub version_of : Request → Option (List ℕ)
  version_of req = header req (codes "Sec-WebSocket-Version")

  -- Version 13, an acceptable key, and a protocol header of nothing but commas and spaces.
  pub record IsFatal (req : Request) : Type 0 where
    pub key : List ℕ
    pub accept : List ℕ
    pub protocol : List ℕ
    pub version_13 : version_of req ≡ some (codes "13")
    pub has_key : key_of req ≡ some key
    pub accepted : build_accept {E = E} api key ≡ ok accept
    pub has_protocol : protocol_of req ≡ some protocol
    pub separators : AllSeparators protocol

  switching_panics :
      (a : List ℕ) (ps : List (List ℕ)) → switching {E = E} api a ps ≡ panicked → ps ≡ []
  unfolding switching
  switching_panics a [] e = refl
  switching_panics a (p ∷ ps) e = cc

  Result-cases :
      (r : NetResult E (List ℕ)) → ((a : List ℕ) × (r ≡ ok a)) ⊎ ((e : NetError E) × (r ≡ err e))
  Result-cases (ok a) = inl (a, refl)
  Result-cases (err e) = inr (e, refl)

  no_chat : protocols (or_chat none) ≢ []
  unfolding protocols or_chat
  no_chat e = cc

  chosen_none :
      (o : Option (List ℕ))
      → protocols (or_chat o) ≡ []
      → (p : List ℕ) × (o ≡ some p) × AllSeparators p
  chosen_none none e = absurd (no_chat e)
  chosen_none (some p) e = unfold or_chat in (p, refl, (protocols_none p).0 e)

  answer_panics :
      (key : List ℕ) (o : Option (List ℕ))
      → answer {E = E} api key o ≡ panicked
      → (accept : List ℕ) × (build_accept {E = E} api key ≡ ok accept)
        × (protocols (or_chat o) ≡ [])
  unfolding answer
  answer_panics key o = elim (Result-cases (build_accept {E = E} api key)) [
    | inl (a, e) ↦ rw (e, answer) (λ h. (a, refl, switching_panics a _ h))
    | inr (x, e) ↦ rw (e, answer) (λ h. cc)
  ]

  fatal :
      (req : Request) (k o v : Option (List ℕ))
      → key_of req ≡ k
      → protocol_of req ≡ o
      → version_of req ≡ v
      → check {E = E} api k o (is_13 v) ≡ panicked
      → IsFatal req
  unfolding check
  fatal req none o v ek eo ev = λ h. cc
  fatal req (some key) o v ek eo ev = elim (Bool-cases (is_13 v)) [
    | inl good ↦
        rw (good, check)
          (λ h.
            let a = answer_panics key o h in
            let c = chosen_none o a.2 in
            record {
              key = key;
              accept = a.0;
              protocol = c.0;
              version_13 = ev ∙ is_13-eq v good;
              has_key = ek;
              accepted = a.1;
              has_protocol = eo ∙ c.1;
              separators = c.2;
            })
    | inr other ↦ rw (other, check) (λ h. cc)
  ]

  fatal_panics : (req : Request) → IsFatal req → build_request {E = E} api req ≡ panicked
  unfolding build_request
  fatal_panics req h =
      rw (h.has_key, h.has_protocol, h.version_13, answer, h.accepted)
        (unfold or_chat in rw ((protocols_none h.protocol).1 h.separators))

  same_status :
      (r res : Response) (n : ℕ)
      → api.status r ≡ n
      → ◌≡◌ {A = Outcome (NetResult E Response)} (returned (ok r)) (returned (ok res))
      → api.status res ≡ n
  same_status r res n p e = cc

  switching_status :
      (a : List ℕ) (ps : List (List ℕ)) (res : Response)
      → switching {E = E} api a ps ≡ returned (ok res)
      → api.status res ≡ 101
  unfolding switching
  switching_status a [] res e = cc
  switching_status a (p ∷ ps) res e = same_status _ res 101 (api.status-respond 101 _ _) e

  answer_status :
      (key : List ℕ) (o : Option (List ℕ)) (res : Response)
      → answer {E = E} api key o ≡ returned (ok res)
      → api.status res ≡ 101
  unfolding answer
  answer_status key o res = elim (Result-cases (build_accept {E = E} api key)) [
    | inl (a, e) ↦ rw (e, answer) (switching_status a _ res)
    | inr (x, e) ↦ rw (e, answer) (λ h. cc)
  ]

  bad_version_status :
      (res : Response)
      → ◌≡◌ {A = Outcome (NetResult E Response)}
          (returned (ok (bad_version api)))
          (returned (ok res))
      → api.status res ≡ 400
  unfolding bad_version
  bad_version_status res e = same_status _ res 400 (api.status-respond 400 [] _) e

  -- The two kinds of response, by what the request holds.
  abbrev pub Answered : Request → Response → Type 0
  Answered req res =
      ((api.status res ≡ 400) × ((key_of req ≡ none) ⊎ (version_of req ≢ some (codes "13"))))
      ⊎ ((api.status res ≡ 101) × (key_of req ≢ none) × (version_of req ≡ some (codes "13")))

  answered :
      (req : Request) (res : Response) (k o v : Option (List ℕ))
      → key_of req ≡ k
      → version_of req ≡ v
      → check {E = E} api k o (is_13 v) ≡ returned (ok res)
      → Answered req res
  unfolding check
  answered req res none o v ek ev = λ e. inl (bad_version_status res e, inl ek)
  answered req res (some key) o v ek ev = elim (Bool-cases (is_13 v)) [
    | inl good ↦
        rw (good, check) (λ e. inr (answer_status key o res e, (λ n. cc), ev ∙ is_13-eq v good))
    | inr other ↦
        rw (other, check)
          (λ e. inl (bad_version_status res e, inr (λ w. other_13 v other (sym ev ∙ w))))
  ]

  -- `build_request` panics exactly on the requests that are fatal: version 13, an acceptable key, and
  -- a protocol header that is there and holds nothing but commas and spaces.
  pub build_request_panics :
      (req : Request) → (build_request {E = E} api req ≡ panicked) ↔ IsFatal req
  unfolding build_request
  build_request_panics req = (fatal req _ _ _ refl refl refl, fatal_panics req)

  -- A response of `build_request` has the status 400 if the request has no key or another version
  -- than 13, and the status 101 if it has a key and version 13.
  pub build_request_status :
      (req : Request) (res : Response)
      → build_request {E = E} api req ≡ returned (ok res)
      → Answered req res
  unfolding build_request
  build_request_status req res e = answered req res _ _ _ refl refl e
