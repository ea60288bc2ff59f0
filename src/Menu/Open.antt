-- ===== src/Menu/Open.antt =====
-- Opening and closing the menu.
use Prim.Native.String.{String}
use text.Mathlib.Text.{◌==◌ as str_eq}
use text.Mathlib.TextEquality.{eq_iff}
use photo_blog.Base.{
  ◌≡◌, refl, ap, ◌∙◌, Bool, true, false, [], ◌∷◌, ◌++◌, ◌==◌, ==_iff, length, length-append, All,
  arith, if◌then◌else◌, if_of_true, if_of_false,
}
use photo_blog.Menu.{Classes, take_out, toggle_class, Elements, toggle_all, indexes, handle_event}

-- The class is not among the classes.
abbrev pub Absent : String → Classes → Type 0
Absent a = All (λ c. str_eq c a ≡ false)

-- The three elements do not have the class "active".
pub record IsClosed (e : Elements) : Type 0 where
  pub layout : Absent "active" e.layout
  pub menu : Absent "active" e.menu
  pub menu_link : Absent "active" e.menu_link

take_out-Absent : (a : String) (cs : Classes) → Absent a cs → take_out a cs ≡ cs
unfolding take_out
take_out-Absent a [] h = refl
take_out-Absent a (c ∷ cs) (n, h) = if_of_false _ _ n ∙ ap (◌∷◌ c) (take_out-Absent a cs h)

take_out-snoc : (a : String) (cs : Classes) → Absent a cs → take_out a (cs ++ a ∷ []) ≡ cs
unfolding take_out
take_out-snoc a [] h = if_of_true _ _ ((eq_iff a a).1 refl)
take_out-snoc a (c ∷ cs) (n, h) = if_of_false _ _ n ∙ ap (◌∷◌ c) (take_out-snoc a cs h)

toggle_class-Absent : (a : String) (cs : Classes) → Absent a cs → toggle_class a cs ≡ cs ++ a ∷ []
unfolding toggle_class
toggle_class-Absent a cs h =
    ap (λ (r : Classes). if length r == length cs then r ++ a ∷ [] else r) (take_out-Absent a cs h)
    ∙ if_of_true {b = length cs == length cs} _ _ ((==_iff (length cs) (length cs)).1 refl)

toggle_class-snoc : (a : String) (cs : Classes) → Absent a cs → toggle_class a (cs ++ a ∷ []) ≡ cs
unfolding toggle_class
toggle_class-snoc a cs h =
    ap (λ (r : Classes). if length r == length (cs ++ a ∷ []) then r ++ a ∷ [] else r)
      (take_out-snoc a cs h)
    ∙ if_of_false {b = length cs == length (cs ++ a ∷ [])} _ _
        (ground (arith, length-append cs (a ∷ [])))

indexes-snoc :
    (mentions : String → Bool) (a : String) (cs : Classes)
    → mentions a ≡ true
    → indexes mentions (cs ++ a ∷ []) ≡ true
indexes-snoc mentions a [] h = ground arith
indexes-snoc mentions a (c ∷ cs) h = ground (arith, indexes-snoc mentions a cs h)

-- The elements with the class put at their ends.
abbrev pub opened : Elements → Elements
opened e = record {
  layout = e.layout ++ "active" ∷ [];
  menu = e.menu ++ "active" ∷ [];
  menu_link = e.menu_link ++ "active" ∷ [];
}

toggle_all-IsClosed : (e : Elements) → IsClosed e → toggle_all e ≡ opened e
unfolding toggle_all
toggle_all-IsClosed e w = λ i. record {
  layout = toggle_class-Absent "active" e.layout w.layout i;
  menu = toggle_class-Absent "active" e.menu w.menu i;
  menu_link = toggle_class-Absent "active" e.menu_link w.menu_link i;
}

toggle_all-opened : (e : Elements) → IsClosed e → toggle_all (opened e) ≡ e
unfolding toggle_all
toggle_all-opened e w = λ i. record {
  layout = toggle_class-snoc "active" e.layout w.layout i;
  menu = toggle_class-snoc "active" e.menu w.menu i;
  menu_link = toggle_class-snoc "active" e.menu_link w.menu_link i;
}

-- A click on the link of a closed menu puts the class "active" at the end of the classes of the
-- layout, the menu and the link and prevents the browser's own action. Either a second click on the
-- link or a click anywhere else then gives all three their classes back; of these two only the
-- click on the link prevents the browser's own action.
pub handle_event-again :
    (mentions : String → Bool) (on_link : Bool) (e : Elements)
    → mentions "active" ≡ true
    → IsClosed e
    → (handle_event mentions true e ≡ (opened e, true))
      × (handle_event mentions on_link (handle_event mentions true e).0 ≡ (e, on_link))
unfolding handle_event
handle_event-again mentions on_link e h w = (
  ap (λ t. (t, true)) (toggle_all-IsClosed e w),
  ap (handle_event mentions on_link) (toggle_all-IsClosed e w) ∙ closes on_link,
)
  where
    closes : (b : Bool) → handle_event mentions b (opened e) ≡ (e, b)
    closes true = ap (λ t. (t, true)) (toggle_all-opened e w)
    closes false =
        if_of_true _ _ (indexes-snoc mentions "active" e.menu h)
        ∙ ap (λ t. (t, false)) (toggle_all-opened e w)
