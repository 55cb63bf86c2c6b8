-- ===== src/Events/Required.antt =====
-- The effect of `REQUIRED_EVENTS` (rust/processor/src/processors/events_processor.rs).
use aptos_indexer_processors.Prelude.{
  ◌≡◌, refl, inl, inr, Bool, true, false, not, ◌&&◌, ◌||◌, List, [], ◌∷◌, Text, text_eq, ◌==◌,
  same_text_iff, Bool-cases, sym, Has,
}
use aptos_indexer_processors.Events.Model.{EventModel}
use aptos_indexer_processors.Events.Collect.{filtered_events, required_events, contains, is_wanted}

contains-Has : (xs : List Text) (t : Text) → contains xs t ≡ true → Has t xs
unfolding contains
contains-Has [] t h = cc
contains-Has (x ∷ xs) t h = elim (Bool-cases (x == t)) [
  | inl e ↦ inl (sym ((same_text_iff x t).0 e))
  | inr e ↦ inr (contains-Has xs t (rw e at h))
]

required_not_filtered : (t : Text) → Has t filtered_events → contains required_events t ≡ false
unfolding contains
required_not_filtered t (inl e) = rw e refl
required_not_filtered t (inr (inl e)) = rw e refl
required_not_filtered t (inr (inr m)) = absurd m

either : (a b c : Bool) → (a ≡ true → b ≡ false) → ((not a || b) && c) ≡ (not a && c)
either true b c h = rw (h refl) refl
either false b c h = refl

-- The list of required events has no effect: a row is kept exactly when neither its type nor its entry
-- function is one of the filtered events, whatever is required.
pub is_wanted_unrequired :
    {Json D : Type 0} (row : EventModel Json D)
    → is_wanted row ≡ (
        not (contains filtered_events row.type_)
        && not (contains filtered_events row.entry_function_id_str))
unfolding is_wanted
is_wanted_unrequired row =
    either (contains filtered_events row.type_) (contains required_events row.type_)
      (not (contains filtered_events row.entry_function_id_str))
      (λ h. required_not_filtered row.type_ (contains-Has filtered_events row.type_ h))
