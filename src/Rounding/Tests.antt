-- ===== src/Rounding/Tests.antt =====
-- Rounding on small numbers.
use jos.Base.{◌≡◌, refl}
use jos.Rounding.{min_of, max_of}

smaller_and_larger : (min_of 3 7 ≡ 3) × (max_of 3 7 ≡ 7)
unfolding min_of max_of
smaller_and_larger = (refl, refl)
