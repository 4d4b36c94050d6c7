-- ===== src/Schedule/Create/Callbacks.antt =====
-- Which entries of a schedule get a write handler: the loop of
-- schedule_installWriteAccessHandlersForValues in schedule.c.
use der_scheduling.Prelude.{
  ℕ, zero, suc, ◌+◌, ◌<◌, ◌≡◌, refl, ◌∙◌, Option, none, some, List, [], ◌∷◌, ◌++◌, length, map,
  arith, append_assoc, append_nil, sym,
}
use der_scheduling.Prelude.Int.{pos}
use der_scheduling.Platform.{Platform}
use der_scheduling.World.{World, Installed, Handler, handle_schd_value, install}
use der_scheduling.Schedule.Values.{get_schedule_value_attribute}
use der_scheduling.Schedule.Create.{install_values}

module _ ⦃lib : Platform⦄ where
  open lib use {Node}

  -- The attributes of the entries from `idx` on are these, and then one is missing.
  abbrev pub EntriesAre : World → (s idx : ℕ) → List Node → Type 0
  EntriesAre w s idx [] = get_schedule_value_attribute w s (pos idx) ≡ none
  EntriesAre w s idx (n ∷ ns) =
      (get_schedule_value_attribute w s (pos idx) ≡ some n) × EntriesAre w s (idx + 1) ns

  abbrev pub value_handler : ℕ → Node → Installed
  value_handler s n = record { node = some n; handler = handle_schd_value; owner = s }

  attribute-install :
      (h : Handler) (owner : ℕ) (n : Option Node) (w : World) (s idx : ℕ)
      → get_schedule_value_attribute (install h owner n w) s (pos idx)
        ≡ get_schedule_value_attribute w s (pos idx)
  unfolding install get_schedule_value_attribute
  attribute-install h owner n w s idx = refl

  EntriesAre-install :
      (h : Handler) (owner : ℕ) (n : Option Node) (w : World) (s idx : ℕ) (ns : List Node)
      → EntriesAre w s idx ns
      → EntriesAre (install h owner n w) s idx ns
  EntriesAre-install h owner n w s idx [] e = attribute-install h owner n w s idx ∙ e
  EntriesAre-install h owner n w s idx (m ∷ ns) (e, es) =
      (attribute-install h owner n w s idx ∙ e, EntriesAre-install h owner n w s (idx + 1) ns es)

  handlers-append :
      (s : ℕ) (n : Node) (ns : List Node) (w : World)
      → (install handle_schd_value s (some n) w).handlers ++ map (value_handler s) ns
        ≡ w.handlers ++ map (value_handler s) (n ∷ ns)
  unfolding install
  handlers-append s n ns w =
      append_assoc w.handlers (value_handler s n ∷ []) (map (value_handler s) ns)

  -- With any fuel above the number of entries, the loop ends at the first index that is missing, and
  -- has then installed the write handler at each entry before it, in order, and changed nothing else
  -- of the callbacks.
  pub install_values-handlers :
      (fuel s idx : ℕ) (ns : List Node) (w : World)
      → EntriesAre w s idx ns
      → length ns < fuel
      → (install_values fuel s idx w).handlers ≡ w.handlers ++ map (value_handler s) ns
  unfolding install_values
  install_values-handlers zero s idx ns w es h = absurd (omega (arith, h))
  install_values-handlers (suc fuel) s idx [] w e h =
      rw (install_values, e) (sym (append_nil w.handlers))
  install_values-handlers (suc fuel) s idx (n ∷ ns) w (e, es) h =
      rw (install_values, e)
        (install_values-handlers fuel s (idx + 1) ns (install handle_schd_value s (some n) w)
            (EntriesAre-install handle_schd_value s (some n) w s (idx + 1) ns es) (omega (arith, h))
          ∙ handlers-append s n ns w)
