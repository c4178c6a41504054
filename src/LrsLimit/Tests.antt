-- ===== src/LrsLimit/Tests.antt =====
-- proxy/lrs_limit.h at the measured layouts of its comment.
use dxr11_pascal.Base.{ℕ, zero, suc, ◌≤◌, ◌≡◌, ◌↔◌, refl, true, false, List, [], ◌∷◌, arith}
use dxr11_pascal.LrsLimit.{Parameter, constants, descriptor, walk_one, walk, fits}
use dxr11_pascal.LrsLimit.Layout.{end_of, total, crossing, allowed, fits_iff}

-- Runs every function of the module.
evaluates : ℕ
unfolding walk_one walk fits end_of total crossing allowed
evaluates = 0

abbrev copies : ℕ → Parameter → List Parameter → List Parameter
copies zero p rest = rest
copies (suc n) p rest = p ∷ copies n p rest

-- `64:64`, `65:31` and `1,65 SRVs 31` of the table, and one more root descriptor each.
table_64 : fits (constants 64 ∷ copies 64 descriptor []) ≡ true
unfolding evaluates
table_64 = refl

table_64_past : fits (constants 64 ∷ copies 65 descriptor []) ≡ false
unfolding evaluates
table_64_past = refl

table_65 : fits (constants 65 ∷ copies 31 descriptor []) ≡ true
unfolding evaluates
table_65 = refl

table_65_past : fits (constants 65 ∷ copies 32 descriptor []) ≡ false
unfolding evaluates
table_65_past = refl

table_1_65 : fits (descriptor ∷ constants 65 ∷ copies 31 descriptor []) ≡ true
unfolding evaluates
table_1_65 = refl

fits_iff_example : (fits (constants 100 ∷ copies 14 descriptor []) ≡ true) ↔ (
    total 0 (constants 100 ∷ copies 14 descriptor [])
    ≤ allowed (crossing 0 (constants 100 ∷ copies 14 descriptor [])))
unfolding evaluates
fits_iff_example = fits_iff (constants 100 ∷ copies 14 descriptor []) (omega arith)
