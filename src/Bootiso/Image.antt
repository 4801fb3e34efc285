-- ===== src/Bootiso/Image.antt =====
-- pkg/bootiso: the boot images of u-root, as far as webboot looks at them.
use mathlib.Core.Bool.{false≢true}
use webboot.Prelude.{
  Str, text_eq, text_eq_iff, List, [], ◌∷◌, ◌≡◌, ◌≢◌, refl, ap, ◌∙◌, Option, none, some,
  if◌then◌else◌, Bool-cases, inl, inr, ◌++◌, sym,
}

-- `boot.LinuxImage`, with its files by name.
pub record LinuxImage : Type 0 where
  pub name : Str
  pub kernel : Option Str
  pub initrd : Option Str
  pub cmdline : Str

-- `boot.OSImage`: what `Label()` returns, and the value of the type assertion to a Linux image.
pub record OsImage : Type 0 where
  pub label : Str
  pub linux : Option LinuxImage

-- `bootiso.Config`.
pub record Config : Type 0 where
  pub label : Str
  pub kernel_path : Str
  pub initrd_path : Str
  pub cmdline : Str

unfoldable pub find_config_option_by_label : List OsImage → Str → Option OsImage
find_config_option_by_label [] label = none
find_config_option_by_label (c ∷ cs) label =
    if text_eq c.label label then some c else find_config_option_by_label cs label

abbrev pub NoneLabelled : Str → List OsImage → Type 0
NoneLabelled label [] = Unit
NoneLabelled label (c ∷ cs) = (c.label ≢ label) × NoneLabelled label cs

-- The first image with the label: it has it, no image before it has it, and if there is no result
-- then no image has it.
abbrev pub FindsFirst : Str → List OsImage → Option OsImage → Type 0
FindsFirst label configs none = NoneLabelled label configs
FindsFirst label configs (some c) =
    (before : List OsImage) × (after : List OsImage) × (configs ≡ before ++ c ∷ after)
    × (c.label ≡ label)
    × NoneLabelled label before

FindsFirst-cons :
    (label : Str) (c : OsImage) (cs : List OsImage) (o : Option OsImage)
    → c.label ≢ label
    → FindsFirst label cs o
    → FindsFirst label (c ∷ cs) o
FindsFirst-cons label c cs none ne h = (ne, h)
FindsFirst-cons label c cs (some d) ne (before, after, e, l, n) =
    (c ∷ before, after, ap (◌∷◌ c) e, l, (ne, n))

-- `findConfigOptionByLabel` finds the first image with the label, and nothing exactly if there is
-- none.
pub find_config_option_by_label_lem :
    (configs : List OsImage) (label : Str)
    → FindsFirst label configs (find_config_option_by_label configs label)
unfolding find_config_option_by_label
find_config_option_by_label_lem [] label = tt
find_config_option_by_label_lem (c ∷ cs) label = elim (Bool-cases (text_eq c.label label)) [
  | inl y ↦ rw (y, find_config_option_by_label) ([], cs, refl, (text_eq_iff c.label label).0 y, tt)
  | inr n ↦
      rw (n, find_config_option_by_label)
        (FindsFirst-cons label c cs _ (λ e. false≢true (sym n ∙ (text_eq_iff c.label label).1 e))
          (find_config_option_by_label_lem cs label))
]
