-- ===== src/Session/Shown.antt =====
-- The fields of the timeline dialog, as an entry of the history fills them.
use simpio.Base.{
  ◌≡◌, arith, refl, ap, ap₂, ◌∙◌, ℕ, zero, suc, ◌+◌, ◌<◌, Bool, true, false, List, [], ◌∷◌, map,
  get_or, length,
}
use simpio.Hardware.{Gpio, num_gpios}
use simpio.Hardware.Lines.{hardware_get_gpio}
use simpio.History.{Entry, gpio_levels}
use simpio.History.Stored.{entry_of}
use simpio.Session.Timeline.{map_values}

-- A place of the timeline as its field `j` shows it, and an entry of the history as the GPIO `g` is in it.
abbrev pub seen : ℕ → Entry → Bool × ℕ
seen j e = (get_or e.values j false, e.clock_tick)

pub length-map_values :
    (sets : List Bool) (gpios : List ℕ) (olds values : List Bool)
    → length (map_values sets gpios olds values) ≡ length olds
unfolding map_values
length-map_values [] gpios olds values = refl
length-map_values (true ∷ sets) [] olds values = refl
length-map_values (false ∷ sets) [] olds values = refl
length-map_values (true ∷ sets) (g ∷ gpios) [] values = refl
length-map_values (false ∷ sets) (g ∷ gpios) [] values = refl
length-map_values (true ∷ sets) (g ∷ gpios) (old ∷ olds) values =
    ap suc (length-map_values sets gpios olds values)
length-map_values (false ∷ sets) (g ∷ gpios) (old ∷ olds) values =
    ap suc (length-map_values sets gpios olds values)

-- A field that is set shows the value of its GPIO.
pub map_values-set :
    (sets : List Bool) (gpios : List ℕ) (olds values : List Bool) (j g : ℕ)
    → get_or sets j false ≡ true
    → get_or gpios j 0 ≡ g
    → j < length gpios
    → j < length olds
    → get_or (map_values sets gpios olds values) j false ≡ get_or values g false
unfolding map_values
map_values-set [] gpios olds values j g s e l m = absurd (ground arith)
map_values-set sets [] olds values j g s e l m = absurd (omega (arith, l))
map_values-set sets gpios [] values j g s e l m = absurd (omega (arith, m))
map_values-set (true ∷ sets) (x ∷ gpios) (old ∷ olds) values zero g s e l m =
    ap (λ (i : ℕ). get_or values i false) e
map_values-set (false ∷ sets) (x ∷ gpios) (old ∷ olds) values zero g s e l m = absurd (ground arith)
map_values-set (true ∷ sets) (x ∷ gpios) (old ∷ olds) values (suc j) g s e l m =
    map_values-set sets gpios olds values j g s e (omega (arith, l)) (omega (arith, m))
map_values-set (false ∷ sets) (x ∷ gpios) (old ∷ olds) values (suc j) g s e l m =
    map_values-set sets gpios olds values j g s e (omega (arith, l)) (omega (arith, m))

levels-get :
    (gpios : List Gpio) (from left i : ℕ)
    → i < left
    → get_or (gpio_levels gpios from left) i false ≡ hardware_get_gpio gpios (from + i)
unfolding gpio_levels
levels-get gpios from zero i l = absurd (omega (arith, l))
levels-get gpios from (suc left) zero l = ap (λ (i : ℕ). hardware_get_gpio gpios i) (omega arith)
levels-get gpios from (suc left) (suc i) l =
    levels-get gpios (from + 1) left i (omega (arith, l))
    ∙ ap (λ (i : ℕ). hardware_get_gpio gpios i) (omega arith)

-- What a field for the GPIO `g` has to show of an update.
abbrev pub observed : ℕ → List Gpio × ℕ → Bool × ℕ
observed g (gpios, tick) = (hardware_get_gpio gpios g, tick)

seen-entry_of : (g : ℕ) (u : List Gpio × ℕ) → g < 32 → seen g (entry_of u) ≡ observed g u
seen-entry_of g (gpios, tick) l =
    ap (λ (b : Bool). (b, tick))
      (levels-get gpios 0 num_gpios g l ∙ ap (λ (i : ℕ). hardware_get_gpio gpios i) (omega arith))

pub map-seen :
    (g : ℕ) (f : ℕ → Entry) (ns : List ℕ)
    → map (λ (i : ℕ). seen g (f i)) ns ≡ map (seen g) (map f ns)
map-seen g f [] = refl
map-seen g f (n ∷ ns) = ap (λ (xs : List (Bool × ℕ)). seen g (f n) ∷ xs) (map-seen g f ns)

pub map-observed :
    (g : ℕ) (us : List (List Gpio × ℕ))
    → g < 32
    → map (seen g) (map entry_of us) ≡ map (observed g) us
map-observed g [] l = refl
map-observed g (u ∷ us) l = ap₂ ◌∷◌ (seen-entry_of g u l) (map-observed g us l)
