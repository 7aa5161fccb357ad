-- ===== src/Pyglev/ListenCmd/Collecting.antt =====
-- The listen command of pyglev/pyglev/core/lstncmd.c and the garbage collector.
use striga2_pocs.Base.{ℕ, ◌+◌, ◌≡◌, refl, Bool, List, [], ◌∷◌, ◌++◌, arith, ◌==◌, if◌then◌else◌}
use striga2_pocs.Calls.{count, count-append, is_decref}
use striga2_pocs.Pyglev.ListenCmd.{
  ListenCmd, listen_cmd_tp_clear, listen_cmd_tp_traverse, listen_cmd_dtor, warn_active,
}

warn_active-drops_nothing :
    (active : List Bool) (o : ℕ) → count (is_decref o) (warn_active active) ≡ 0
unfolding count is_decref
warn_active-drops_nothing [] o = refl
warn_active-drops_nothing (a ∷ as_) o = ground (arith, warn_active-drops_nothing as_ o)

-- How often a visit reports an object.
visits : ℕ → List ℕ → ℕ
visits o [] = 0
visits o (p ∷ ps) = (if o == p then 1 else 0) + visits o ps

-- The destructor drops as many references to an object as the collector is told of, and so it does
-- in all if the collector has cleared the command before.
clear_dtor :
    (self : ListenCmd) (active : List Bool) (o : ℕ)
    → (count (is_decref o) (listen_cmd_dtor self active) ≡ visits o (listen_cmd_tp_traverse self))
      × (count
            (is_decref o)
            ((listen_cmd_tp_clear self).1 ++ listen_cmd_dtor (listen_cmd_tp_clear self).0 active)
          ≡ count (is_decref o) (listen_cmd_dtor self active))
unfolding listen_cmd_dtor listen_cmd_tp_clear listen_cmd_tp_traverse visits count is_decref
clear_dtor self active o =
    grind (arith, count-append (is_decref o), warn_active-drops_nothing active o)
