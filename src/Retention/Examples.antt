-- ===== src/Retention/Examples.antt =====
-- A directory of four files, of which the minimum time 10 leaves three.
use litefs.Prelude.{◌<◌, ◌≡◌, refl, sym, subst, ◌↔◌, arith, true, false, List, [], ◌∷◌, inl, inr}
use litefs.Retention.{Entry, enforce_retention}
use litefs.Retention.Enforced.{Has, IsSorted, Stays, enforce_retention_correct}

abbrev due : Entry
due = record { name = 1; is_ltx = true; mod_time = 7 }

abbrev recent_file : Entry
recent_file = record { name = 2; is_ltx = true; mod_time = 12 }

abbrev newest_file : Entry
newest_file = record { name = 3; is_ltx = true; mod_time = 8 }

abbrev temporary : Entry
temporary = record { name = 4; is_ltx = false; mod_time = 5 }

abbrev dir : List Entry
dir = due ∷ recent_file ∷ newest_file ∷ temporary ∷ []

dir-IsSorted : IsSorted dir
dir-IsSorted = (first, (second, (last, (λ e h. absurd h, tt))))
  where
    last : (e : Entry) → Has (temporary ∷ []) e → 3 < e.name
    last e (inl q) = subst (λ e. 3 < e.name) (sym q) (omega arith)
    last e (inr z) = absurd z

    second : (e : Entry) → Has (newest_file ∷ temporary ∷ []) e → recent_file.name < e.name
    second e (inl q) = subst (λ e. 2 < e.name) (sym q) (omega arith)
    second e (inr h) = omega (arith, last e h)

    first : (e : Entry) → Has (recent_file ∷ newest_file ∷ temporary ∷ []) e → due.name < e.name
    first e (inl q) = subst (λ e. 1 < e.name) (sym q) (omega arith)
    first e (inr h) = omega (arith, second e h)

enforced : enforce_retention (λ xs. xs) 10 dir ≡ recent_file ∷ newest_file ∷ temporary ∷ []
unfolding enforce_retention litefs.Retention.read_ltx_dir
enforced = refl

enforce_retention_correct_example :
    Has (enforce_retention (λ xs. xs) 10 dir) newest_file
    ↔ (Has dir newest_file × Stays 10 dir newest_file)
enforce_retention_correct_example =
    enforce_retention_correct (λ xs. xs) (λ xs s. refl) 10 dir dir-IsSorted newest_file
