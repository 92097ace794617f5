-- ===== src/Commands/Quotes/Bounded.antt =====
-- The search for a quote, against what it means: the quote stands in the words between word boundaries.
use Prim.Native.Char.{code}
use text.Mathlib.TextLemmas.{nil-append, cons-append, cons-eq-cons}
use text.Mathlib.TextEquality.{Char-path}
use done_means_done.Base.{
  ◌≡◌, sym, ◌∙◌, ap, ◌↔◌, inl, inr, Bool, true, false, ◌||◌, some, String, ◌<>◌, arith, ltb,
  Bool-cases, Option-cases,
}
use mathlib.Core.Path.{subst}
use mathlib.Core.Option.{some-injective}
use done_means_done.Base.Text.{drop_prefix}
use done_means_done.Host.{Host}
use done_means_done.Commands.Quotes.{ends_word, quote_here, quote_from, bounded}

drop_prefix-append : (p r : String) → drop_prefix p (p <> r) ≡ some r
unfolding drop_prefix
drop_prefix-append String.[] r = ap some (nil-append r)
drop_prefix-append (String.◌∷◌ c p) r =
    rw (cons-append c p r, drop_prefix) (rw (drop_prefix-append p r) (ground arith))

drop_prefix_sound : (p s : String) {r : String} → drop_prefix p s ≡ some r → s ≡ p <> r
unfolding drop_prefix
drop_prefix_sound String.[] s {r} h = some-injective _ _ h ∙ sym (nil-append r)
drop_prefix_sound (String.◌∷◌ p ps) String.[] h = cc
drop_prefix_sound (String.◌∷◌ p ps) (String.◌∷◌ c s) {r} h =
    elim (Option-cases (drop_prefix ps s)) [
      | inl e ↦ absurd (ground arith)
      | inr (q, e) ↦ elim (Bool-cases (ltb (code p) (code c) || ltb (code c) (code p))) [
        | inl f ↦ absurd (ground arith)
        | inr f ↦
            (cons-eq-cons.1
              (Char-path c p (ground arith), drop_prefix_sound ps s {r = r} (ground arith)))
            ∙ sym (cons-append p ps r)
      ]
    ]

-- Whether a character that follows the text continues a word.
abbrev pub in_word_after : Host → Bool → String → Bool
in_word_after h b String.[] = b
in_word_after h b (String.◌∷◌ c s) = in_word_after h (h.is_word (code c)) s

-- A place where the quote stands, between word boundaries.
pub record StandsFrom (h : Host) (b : Bool) (quote words : String) : Type 0 where
  pub before : String
  pub after : String
  pub split : words ≡ before <> (quote <> after)
  pub starts_word : in_word_after h b before ≡ false
  pub stops_word : ends_word h after ≡ true

module _ (h : Host) (quote : String) where
  here_sound : (b : Bool) (s : String) → quote_here h b quote s ≡ true → StandsFrom h b quote s
  here_sound b s e = elim (Option-cases (drop_prefix quote s)) [
    | inl f ↦ absurd (ground arith)
    | inr (r, f) ↦ record {
      before = "";
      after = r;
      split = drop_prefix_sound quote s f ∙ sym (nil-append (quote <> r));
      starts_word = ground arith;
      stops_word = ground arith;
    }
  ]

  quote_from_sound :
      (s : String) (b : Bool) → quote_from h b quote s ≡ true → StandsFrom h b quote s
  quote_from_sound String.[] b e = here_sound b "" e
  quote_from_sound (String.◌∷◌ c s) b e =
      elim (Bool-cases (quote_here h b quote (String.◌∷◌ c s))) [
        | inl f ↦ here_sound b (String.◌∷◌ c s) f
        | inr f ↦
            let w = quote_from_sound s (h.is_word (code c)) (ground arith) in
            record {
              before = String.◌∷◌ c w.before;
              after = w.after;
              split = ap (String.◌∷◌ c) w.split ∙ sym (cons-append c w.before (quote <> w.after));
              starts_word = w.starts_word;
              stops_word = w.stops_word;
            }
      ]

  here_complete :
      (b : Bool) (after : String)
      → b ≡ false
      → ends_word h after ≡ true
      → quote_here h b quote (quote <> after) ≡ true
  here_complete b after e f = ground (arith, drop_prefix-append quote after)

  from_here :
      (b : Bool) (s : String) → quote_here h b quote s ≡ true → quote_from h b quote s ≡ true
  from_here b String.[] e = e
  from_here b (String.◌∷◌ c s) e = ground arith

  quote_from_complete :
      (before : String) (b : Bool) (after : String)
      → in_word_after h b before ≡ false
      → ends_word h after ≡ true
      → quote_from h b quote (before <> (quote <> after)) ≡ true
  quote_from_complete String.[] b after e f =
      rw (nil-append (quote <> after)) (from_here b (quote <> after) (here_complete b after e f))
  quote_from_complete (String.◌∷◌ c before) b after e f =
      rw (cons-append c before (quote <> after))
        (ground (arith, quote_from_complete before (h.is_word (code c)) after e f))

  -- The quote stands in the words between word boundaries.
  abbrev pub StandsIn : String → Type 0
  StandsIn words = StandsFrom h false quote words

  -- The search finds a quote exactly where the words hold it and neither the character before it nor the one
  -- behind it is part of a word.
  pub bounded_iff : (words : String) → (bounded h quote words ≡ true) ↔ StandsIn words
  unfolding bounded
  bounded_iff words = (
    λ e. quote_from_sound words false e,
    λ w.
        subst (λ s. quote_from h false quote s ≡ true) (sym w.split)
          (quote_from_complete w.before false w.after w.starts_word w.stops_word),
  )
