-- ===== src/Base/Maps.antt =====
-- Maps with texts as keys, as functions.
use mathlib.Core.Option.{Option, none, some}
use lunnel.Base.Tests.{if◌then◌else◌}
use lunnel.Base.Text.{Text, text_eq}

abbrev pub Map {ℓ} : Type ℓ → Type ℓ
Map A = Text → Option A

-- m[k] = v
abbrev pub store {ℓ} : {A : Type ℓ} → Text → A → Map A → Map A
store k v m q = if text_eq k q then some v else m q

-- delete(m, k)
abbrev pub delete {ℓ} : {A : Type ℓ} → Text → Map A → Map A
delete k m q = if text_eq k q then none else m q
