-- ===== src/Logs/Stream/Chunks.antt =====
-- The events of a stream do not depend on where the reads cut it.
use dbtabase_workbench.Common.{
  ℕ, ◌≡◌, refl, sym, ap, ◌∙◌, inl, inr, ◌&&◌, Option, none, some, List, [], ◌∷◌, ◌++◌, append_assoc,
  append-nil, Text, ◌==◌, Bool-cases, flat_map, arith,
}
use dbtabase_workbench.Logs.Stream.{
  push, line_feed, cut, data_of, Delivered, deliver, after_event, after_line, continue, tail_ssh,
}

push-whole :
    (c : ℕ) (parts : List Text × Text)
    → (push c parts).0 ≡ []
    → (parts.0 ≡ []) × ((push c parts).1 ≡ c ∷ parts.1)
push-whole c ([], r) h = (refl, refl)
push-whole c (p ∷ ps, r) h = absurd (ground (arith, h))

-- A text that is cut nowhere is its own last part.
cut-whole : (s : Text) → (cut s).0 ≡ [] → (cut s).1 ≡ s
unfolding cut
cut-whole [] = λ h. refl
cut-whole (c ∷ []) = λ h. refl
cut-whole (c ∷ d ∷ s) = elim (Bool-cases (c == line_feed && d == line_feed)) [
  | inl e ↦ rw e (λ h. absurd (nonempty [] (cut s).0 h))
  | inr e ↦ rw e (λ h.
      let (none_cut, same) = push-whole c (cut (d ∷ s)) h in
      same ∙ ap (c ∷◌) (cut-whole (d ∷ s) none_cut))
]
  where
    nonempty : (p : Text) (ps : List Text) → p ∷ ps ≡ [] → ⊥
    nonempty p ps h = ground (arith, h)

-- The parts of a text that goes on with another one.
abbrev pub go_on : List Text × Text → Text → List Text × Text
go_on parts b = (parts.0 ++ (cut (parts.1 ++ b)).0, (cut (parts.1 ++ b)).1)

push-go_on :
    (c : ℕ) (x b : Text) (parts : List Text × Text)
    → (parts.0 ≡ [] → parts.1 ≡ x)
    → cut (c ∷ (x ++ b)) ≡ push c (cut (x ++ b))
    → push c (go_on parts b) ≡ go_on (push c parts) b
push-go_on c x b ([], r) whole h = rw (whole refl) (sym h)
push-go_on c x b (p ∷ ps, r) whole h = refl

pub cut-append : (a b : Text) → cut (a ++ b) ≡ go_on (cut a) b
unfolding cut
cut-append [] b = refl
cut-append (c ∷ []) b = refl
cut-append (c ∷ d ∷ s) b = elim (Bool-cases (c == line_feed && d == line_feed)) [
  | inl e ↦ rw (e, cut-append s b)
  | inr e ↦
      let step : cut (c ∷ ((d ∷ s) ++ b)) ≡ push c (cut ((d ∷ s) ++ b)) = rw e refl in
      let here : cut (c ∷ d ∷ s) ≡ push c (cut (d ∷ s)) = rw e refl in
      step
      ∙ ap (push c) (cut-append (d ∷ s) b)
      ∙ push-go_on c (d ∷ s) b (cut (d ∷ s)) (cut-whole (d ∷ s)) step
      ∙ ap (λ parts. go_on parts b) (sym here)
]

nothing_added : (xs ys : List Text) → xs ≡ xs ++ ys → ys ≡ []
nothing_added [] ys h = sym h
nothing_added (x ∷ xs) ys h = nothing_added xs ys (ground (arith, h))

-- The last part of a text is cut nowhere.
cut-rest : (s : Text) → (cut (cut s).1).0 ≡ []
cut-rest s =
    let again : cut s ≡ go_on (cut s) [] = ap cut (sym (append-nil s)) ∙ cut-append s [] in
    ap (λ t. (cut t).0) (sym (append-nil (cut s).1))
    ∙ nothing_added (cut s).0 (cut ((cut s).1 ++ [])).0 (ap (λ parts. parts.0) again)

module _ {ℓ} {E : Type ℓ} where
  after_event-continue :
      (o : Option E) (x y : Delivered E)
      → after_event o (continue x y) ≡ continue (after_event o x) y
  after_event-continue none x y = refl
  after_event-continue (some e) x y = elim (Bool-cases x.whole) [
    | inl h ↦ rw h refl
    | inr h ↦ rw h refl
  ]

module _ {ℓ} {E : Type ℓ} (parse : Text → Option E) where
  after_line-continue :
      (o : Option Text) (x y : Delivered E)
      → after_line parse o (continue x y) ≡ continue (after_line parse o x) y
  after_line-continue none x y = refl
  after_line-continue (some line) x y = after_event-continue (parse line) x y

  deliver-append :
      (ps qs : List Text)
      → deliver parse (ps ++ qs) ≡ continue (deliver parse ps) (deliver parse qs)
  unfolding deliver
  deliver-append [] qs = refl
  deliver-append (p ∷ ps) qs =
      ap (after_line parse (data_of p)) (deliver-append ps qs)
      ∙ after_line-continue (data_of p) (deliver parse ps) (deliver parse qs)

  tail-buffer :
      (reads : List Text) (buffer : Text)
      → (cut buffer).0 ≡ []
      → tail_ssh parse reads buffer ≡ deliver parse (cut (buffer ++ flat_map (λ r. r) reads)).0
  unfolding tail_ssh deliver
  tail-buffer [] buffer h = ap (deliver parse) (sym (ap (λ s. (cut s).0) (append-nil buffer) ∙ h))
  tail-buffer (r ∷ rs) buffer h =
      let parts = cut (buffer ++ r) in
      let rest = flat_map (λ r. r) rs in
      ap (continue (deliver parse parts.0)) (tail-buffer rs parts.1 (cut-rest (buffer ++ r)))
      ∙ sym (deliver-append parts.0 (cut (parts.1 ++ rest)).0)
      ∙ ap (λ c. deliver parse c.0)
          (sym (cut-append (buffer ++ r) rest) ∙ ap cut (append_assoc buffer r rest))

  -- Wherever the reads cut the stream, the events, and whether all of it could be read, are those
  -- of the whole text cut at its blank lines.
  pub tail_ssh-joined :
      (reads : List Text)
      → tail_ssh parse reads [] ≡ deliver parse (cut (flat_map (λ r. r) reads)).0
  unfolding cut
  tail_ssh-joined reads = tail-buffer reads [] refl
