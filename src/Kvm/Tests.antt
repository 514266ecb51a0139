-- ===== src/Kvm/Tests.antt =====
-- A table of capabilities whose map gives the second entry first.
use mathlib.Core.List.{Permᴰ}
use litedroid.Base.{◌≡◌, refl, String, Bool, true, false, List, [], ◌∷◌}
use litedroid.Kvm.Capabilities.{Cap, hlt, probes, new, is_available, summary}
use litedroid.Kvm.Capabilities.Table.{summary-order, is_available-probed}

abbrev turned : List (String × Bool) → List (String × Bool)
turned [] = []
turned (a ∷ []) = a ∷ []
turned (a ∷ b ∷ l) = b ∷ a ∷ l

turned-Permᴰ : (l : List (String × Bool)) → Permᴰ (turned l) l
turned-Permᴰ [] = Permᴰ.nil
turned-Permᴰ (a ∷ []) = Permᴰ.cons refl Permᴰ.nil
turned-Permᴰ (a ∷ b ∷ l) = Permᴰ.swap refl refl

abbrev halts : Cap → Bool
halts hlt = true
halts _ = false

summary-order_example : summary (new turned halts) ≡ summary (new (λ l. l) halts)
summary-order_example = summary-order turned halts turned-Permᴰ

is_available-probed_example : is_available (new turned halts) "HLT" ≡ true
unfolding probes
is_available-probed_example = is_available-probed halts turned turned-Permᴰ "HLT"
