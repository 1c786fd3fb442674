-- ===== src/Vector/Tests.antt =====
-- A vector with two elements.
use tkined_remix.Prelude.{[], ◌∷◌, refl}
use tkined_remix.Snmp.OidText.{cleared}
use tkined_remix.Vector.{TnmVector}
use tkined_remix.Vector.Contents.{Holds}

abbrev two : TnmVector
two = record { elements = 70 ∷ 90 ∷ cleared 7; size = 2; space_avl = 8 }

two-Holds : Holds two (70 ∷ 90 ∷ [])
two-Holds = record { free = 6; memory = refl; sized = refl; spaced = refl }
