-- ===== src/Ingester/Symbols.antt =====
-- internal/ingester/binance.go: normalized symbols and the names of streams.
use crypto_divergence_engine.Prelude.{
  ℕ, ◌-◌, ◌≡◌, refl, sym, ap, ◌∙◌, true, List, [], ◌∷◌, ◌++◌, arith, ◌==◌, ltb, map, length, take,
  drop, take-append-drop, Bool-cases, inl, inr,
}
use crypto_divergence_engine.Go.Text.{
  Str, Unicode, bytes, is_ascii, to_upper, to_lower, upper_byte, lower_byte, has_suffix, str_eq_iff,
}
use crypto_divergence_engine.Ingester.{
  normalize_symbol, split_quote, quotes, remove_dashes, stream_name,
}

remove_dashes-append : (s t : Str) → remove_dashes (s ++ t) ≡ remove_dashes s ++ remove_dashes t
unfolding remove_dashes
remove_dashes-append [] t = refl
remove_dashes-append (c ∷ s) t = ground (arith, remove_dashes-append s t)

remove_dashes_dash : (s : Str) → remove_dashes (bytes "-" ++ s) ≡ remove_dashes s
unfolding remove_dashes
remove_dashes_dash s = refl

-- A text with the suffix is what comes before it, and the suffix.
pub has_suffix-eq : (s q : Str) → has_suffix s q ≡ true → take (length s - length q) s ++ q ≡ s
unfolding has_suffix
has_suffix-eq s q h =
    ap (λ r. take (length s - length q) s ++ r)
      (sym ((str_eq_iff (drop (length s - length q) s) q).0 (ground arith)))
    ∙ take-append-drop (length s - length q) s

remove_dashes-split_quote :
    (s : Str) (qs : List Str) → remove_dashes (split_quote s qs) ≡ remove_dashes s
unfolding split_quote
remove_dashes-split_quote s [] = refl
remove_dashes-split_quote s (q ∷ qs) = elim (Bool-cases (has_suffix s q)) [
  | inl e ↦
      let base = take (length s - length q) s in
      rw (e, split_quote)
        (remove_dashes-append base (bytes "-" ++ q)
          ∙ ap (λ r. remove_dashes base ++ r) (remove_dashes_dash q)
          ∙ sym (remove_dashes-append base q)
          ∙ ap remove_dashes (has_suffix-eq s q e))
  | inr e ↦ rw (e, split_quote) (remove_dashes-split_quote s qs)
]

lower_upper : (c : ℕ) → lower_byte (upper_byte c) ≡ lower_byte c
unfolding lower_byte upper_byte
lower_upper c = ground arith

upper_dash : (c : ℕ) → (upper_byte c == b'-') ≡ (c == b'-')
unfolding upper_byte
upper_dash c = ground arith

upper_ascii : (c : ℕ) → ltb c 128 ≡ true → ltb (upper_byte c) 128 ≡ true
unfolding upper_byte
upper_ascii c h = ground (arith, h)

upper-is_ascii : (s : Str) → is_ascii s ≡ true → is_ascii (map upper_byte s) ≡ true
unfolding is_ascii
upper-is_ascii [] h = refl
upper-is_ascii (c ∷ s) h =
    ground (arith, upper_ascii c (ground (arith, h)), upper-is_ascii s (ground (arith, h)))

remove_dashes-is_ascii : (s : Str) → is_ascii s ≡ true → is_ascii (remove_dashes s) ≡ true
unfolding is_ascii remove_dashes
remove_dashes-is_ascii [] h = refl
remove_dashes-is_ascii (c ∷ s) h = ground (arith, h, remove_dashes-is_ascii s (ground (arith, h)))

lower-remove_dashes-upper :
    (s : Str) → map lower_byte (remove_dashes (map upper_byte s)) ≡ map lower_byte (remove_dashes s)
unfolding remove_dashes
lower-remove_dashes-upper [] = refl
lower-remove_dashes-upper (c ∷ s) =
    ground (arith, upper_dash c, lower_upper c, lower-remove_dashes-upper s)

module _ ⦃uni : Unicode⦄ where
  to_upper_ascii : (s : Str) → is_ascii s ≡ true → to_upper s ≡ map upper_byte s
  unfolding to_upper
  to_upper_ascii s h = rw h refl

  to_lower_ascii : (s : Str) → is_ascii s ≡ true → to_lower s ≡ map lower_byte s
  unfolding to_lower
  to_lower_ascii s h = rw h refl

  -- For a symbol of ASCII bytes, the stream that is subscribed to for its normalized form is the
  -- stream of the symbol itself.
  pub stream_name-normalize_symbol :
      (s : Str) → is_ascii s ≡ true → stream_name (normalize_symbol s) ≡ stream_name s
  unfolding stream_name normalize_symbol
  stream_name-normalize_symbol s h =
      let up = map upper_byte s in
      let bare = remove_dashes-is_ascii up (upper-is_ascii s h) in
      ap (λ r. r ++ bytes "@trade")
        (ap (λ r. to_lower (remove_dashes (split_quote r quotes))) (to_upper_ascii s h)
          ∙ ap to_lower (remove_dashes-split_quote up quotes)
          ∙ to_lower_ascii (remove_dashes up) bare
          ∙ lower-remove_dashes-upper s
          ∙ sym (to_lower_ascii (remove_dashes s) (remove_dashes-is_ascii s h)))
