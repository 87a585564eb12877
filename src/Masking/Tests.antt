-- ===== src/Masking/Tests.antt =====
-- A secret of one line, and one of two lines of which one is too short, in a text.
use test_at_scale.Prelude.{String, ◌≡◌, refl, none, [], ◌∷◌, Dict, All, has_prefix, text_length}
use test_at_scale.Masking.{old_new, replace, replace_from, masker_write, byte_length}
use test_at_scale.Masking.Hidden.{Shows, IsPair, AreMasked, masker_write-Shows}

abbrev secrets : Dict String
secrets = ("cipher", "lazy dog") ∷ ("key", " The\nl") ∷ ("none", "") ∷ []

lines_are_trimmed :
    old_new secrets ≡ ("lazy dog", "****************") ∷ ("The", "****************") ∷ []
unfolding old_new
lines_are_trimmed = refl

both_are_masked :
    replace (old_new secrets) "The quick fox and the lazy dog"
    ≡ "**************** quick fox and the ****************"
unfolding old_new replace replace_from has_prefix text_length
both_are_masked = refl

masker_write-Shows_example :
    (out : String) × Shows (old_new secrets) "a lazy dog" out
    × ((masker_write (λ text. (byte_length text, none)) secrets "a lazy dog").1 ≡ none)
    × All IsPair (old_new secrets)
    × AreMasked (old_new secrets) secrets
masker_write-Shows_example =
    masker_write-Shows (λ text. (byte_length text, none)) secrets "a lazy dog"
