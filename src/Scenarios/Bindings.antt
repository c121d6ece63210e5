-- ===== src/Scenarios/Bindings.antt =====
-- Two bindings that fight for one target.
use le_to_alicloud.Prelude.{◌≡◌, refl, some, List, [], ◌∷◌, codes, text_lt}
use le_to_alicloud.Api.Binding.{AliyunCertificateBinding}
use le_to_alicloud.Controller.Binding.Conflict.{less_binding, pick_winner, pick_from}
use le_to_alicloud.Controller.Binding.Conflict.Winner.{Winner, pick_winner-Winner}
use le_to_alicloud.Scenarios.Data.{test_binding}

-- made in the same second
abbrev rival : AliyunCertificateBinding
rival = record test_binding { name = codes "rival"; uid = codes "u0" }

abbrev leaving : AliyunCertificateBinding
leaving = record rival { uid = codes "a"; deletion_timestamp = some 9 }

abbrev listed : List AliyunCertificateBinding
listed = test_binding ∷ leaving ∷ rival ∷ []

pick_winner-rival : pick_winner listed ≡ some rival
unfolding pick_winner pick_from less_binding text_lt
pick_winner-rival = refl

pick_winner_reversed : pick_winner (rival ∷ test_binding ∷ []) ≡ some rival
unfolding pick_winner pick_from less_binding text_lt
pick_winner_reversed = refl

pick_winner-Winner_example : Winner listed (pick_winner listed)
pick_winner-Winner_example = pick_winner-Winner listed
