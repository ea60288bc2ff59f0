-- ===== src/Thumbs/Observed.antt =====
-- What one entry of the observer does to the times of an image.
use Prim.Native.String.{String}
use text.Mathlib.Text.{◌==◌ as str_eq}
use text.Mathlib.TextEquality.{eq_iff}
use mathlib.Core.Path.{subst}
use photo_blog.Base.{
  ℕ, suc, ◌≡◌, ◌≢◌, refl, sym, ap, ◌∙◌, Bool, true, false, Option, none, some, List, [], ◌∷◌, inl,
  inr, if◌then◌else◌, Bool-cases, if_of_true, if_of_false,
}
use photo_blog.Base.Int.{ℤ, pos, negsuc, ◌+ℤ◌, ◌-ℤ◌, int_laws, eq_of_parts}
use photo_blog.Thumbs.{Times, set_time, truthy_time, value, State, observe}

-- The time in view in one callback, and whether and since when the thumbnail is in view after it;
-- independent of what the code keeps: only the entries of the hash count.
abbrev pub entry_seen : String → ℤ → Option ℤ → String × Bool → ℤ × Option ℤ
entry_seen k now since (h, true) =
    (pos 0, if str_eq k h then elim since [ none ↦ some now | some a ↦ some a ] else since)
entry_seen k now since (h, false) = (
  if str_eq k h then elim since [ none ↦ pos 0 | some a ↦ now -ℤ a ] else pos 0,
  if str_eq k h then none else since,
)

abbrev pub seen : String → ℤ → Option ℤ → List (String × Bool) → ℤ × Option ℤ
seen k now since [] = (pos 0, since)
seen k now since (e ∷ entries) =
    let o = entry_seen k now since e in let rest = seen k now o.1 entries in (o.0 +ℤ rest.0, rest.1)

abbrev pub in_view : String → Option ℤ → List (ℤ × List (String × Bool)) → ℤ
in_view k since [] = pos 0
in_view k since ((now, entries) ∷ calls) =
    let s = seen k now since entries in s.0 +ℤ in_view k s.1 calls

abbrev pub reported : String → List Times → ℤ
reported k [] = pos 0
reported k (f ∷ fs) = value (f k) +ℤ reported k fs

-- All that was handed over for a hash, and what is kept for the next time.
abbrev pub total : String → State → ℤ
total k s = value (s.visible_for k) +ℤ reported k s.flushed

pub sum_assoc : (a b c : ℤ) → a +ℤ b +ℤ c ≡ a +ℤ (b +ℤ c)
sum_assoc a b c = eq_of_parts _ _ (omega int_laws)

sum_swap : (a b c : ℤ) → a +ℤ b +ℤ c ≡ a +ℤ c +ℤ b
sum_swap a b c = eq_of_parts _ _ (omega int_laws)

pub sum_zero : (a : ℤ) → a +ℤ pos 0 ≡ a
sum_zero a = eq_of_parts _ _ (omega int_laws)

pub zero_sum : (a : ℤ) → pos 0 +ℤ a ≡ a
zero_sum a = eq_of_parts _ _ (omega int_laws)

value-add : (o : Option ℤ) (d : ℤ) → (if truthy_time o then value o +ℤ d else d) ≡ value o +ℤ d
value-add none d = sym (zero_sum d)
value-add (some (pos ℕ.zero)) d = sym (zero_sum d)
value-add (some (pos (suc n))) d = refl
value-add (some (negsuc n)) d = refl

-- A field that is kept is not 0.
abbrev pub Nonzero : Option ℤ → Type 0
Nonzero none = Unit
Nonzero (some t) = t ≢ pos 0

truthy-some : (a : ℤ) → a ≢ pos 0 → truthy_time (some a) ≡ true
truthy-some (pos ℕ.zero) h = absurd (h refl)
truthy-some (pos (suc n)) h = refl
truthy-some (negsuc n) h = refl

set-same : (f : Times) (k h : String) (v : Option ℤ) → str_eq k h ≡ true → set_time f h v k ≡ v
unfolding set_time
set-same f k h v e = if_of_true _ _ e

set-other : (f : Times) (k h : String) (v : Option ℤ) → str_eq k h ≡ false → set_time f h v k ≡ f k
unfolding set_time
set-other f k h v e = if_of_false _ _ e

-- What an entry, a callback or a run leaves: the time that was added, and since when in view.
pub record After (k : String) (s t : State) (seen_for : ℤ) (since : Option ℤ) : Type 0 where
  pub time : total k t ≡ total k s +ℤ seen_for
  pub since_when : t.visible_since k ≡ since

str_eq_refl : (k : String) → str_eq k k ≡ true
str_eq_refl k = (eq_iff k k).1 refl

pub stays :
    (k : String) (s : State) (since : Option ℤ)
    → s.visible_since k ≡ since
    → After k s s (pos 0) since
stays k s since e = record { time = sym (sum_zero (total k s)); since_when = e }

pub After-via :
    {k : String} {s t u : State} {x y : ℤ} {a b : Option ℤ}
    → t ≡ u
    → x ≡ y
    → a ≡ b
    → After k s u y b
    → After k s t x a
After-via {k} {s} {t} {u} {x} {y} {a} {b} p q r h = record {
  time = ap (total k) p ∙ h.time ∙ ap (λ z. total k s +ℤ z) (sym q);
  since_when = ap (λ (w : State). w.visible_since k) p ∙ h.since_when ∙ sym r;
}

-- The entry of a hash itself.
observe-same :
    (now : ℤ) (s : State) (k : String) (b : Bool) (since : Option ℤ)
    → s.visible_since k ≡ since
    → Nonzero since
    → After k s
        (observe now s (k, b))
        (entry_seen k now since (k, b)).0
        (entry_seen k now since (k, b)).1
unfolding observe
observe-same now s k true none e nz =
    After-via (if_of_false _ _ (ap truthy_time e)) refl (if_of_true _ _ (str_eq_refl k)) (record {
      time = sym (sum_zero (total k s));
      since_when = set-same s.visible_since k k (some now) (str_eq_refl k);
    })
observe-same now s k true (some a) e nz =
    After-via (if_of_true _ _ (ap truthy_time e ∙ truthy-some a nz)) refl
      (if_of_true _ _ (str_eq_refl k)) (stays k s (some a) e)
observe-same now s k false none e nz =
    After-via (if_of_false _ _ (ap truthy_time e)) (if_of_true _ _ (str_eq_refl k))
      (if_of_true _ _ (str_eq_refl k)) (stays k s none e)
observe-same now s k false (some a) e nz =
    After-via (if_of_true _ _ (ap truthy_time e ∙ truthy-some a nz))
      (if_of_true _ _ (str_eq_refl k)) (if_of_true _ _ (str_eq_refl k))
      (record {
        time =
            ap (λ o. value o +ℤ reported k s.flushed) (set-same s.visible_for k k _ (str_eq_refl k))
            ∙ ap (λ q. q +ℤ reported k s.flushed)
                (value-add (s.visible_for k) (now -ℤ value (s.visible_since k)))
            ∙ ap (λ o. value (s.visible_for k) +ℤ (now -ℤ value o) +ℤ reported k s.flushed) e
            ∙ sum_swap (value (s.visible_for k)) (now -ℤ a) (reported k s.flushed);
        since_when = set-same s.visible_since k k none (str_eq_refl k);
      })

observe-other :
    (now : ℤ) (s : State) (k h : String) (b : Bool) (since : Option ℤ)
    → s.visible_since k ≡ since
    → str_eq k h ≡ false
    → After k s
        (observe now s (h, b))
        (entry_seen k now since (h, b)).0
        (entry_seen k now since (h, b)).1
unfolding observe
observe-other now s k h true since e ne = elim (Bool-cases (truthy_time (s.visible_since h))) [
  | inl t ↦ After-via (if_of_true _ _ t) refl (if_of_false _ _ ne) (stays k s since e)
  | inr t ↦ After-via (if_of_false _ _ t) refl (if_of_false _ _ ne) (record {
    time = sym (sum_zero (total k s));
    since_when = set-other s.visible_since k h (some now) ne ∙ e;
  })
]
observe-other now s k h false since e ne = elim (Bool-cases (truthy_time (s.visible_since h))) [
  | inl t ↦ After-via (if_of_true _ _ t) (if_of_false _ _ ne) (if_of_false _ _ ne) (record {
    time =
        ap (λ o. value o +ℤ reported k s.flushed) (set-other s.visible_for k h _ ne)
        ∙ sym (sum_zero (total k s));
    since_when = set-other s.visible_since k h none ne ∙ e;
  })
  | inr t ↦
      After-via (if_of_false _ _ t) (if_of_false _ _ ne) (if_of_false _ _ ne) (stays k s since e)
]

pub observe-After :
    (now : ℤ) (s : State) (k : String) (e : String × Bool) (since : Option ℤ)
    → s.visible_since k ≡ since
    → Nonzero since
    → After k s (observe now s e) (entry_seen k now since e).0 (entry_seen k now since e).1
observe-After now s k (h, b) since e nz = elim (Bool-cases (str_eq k h)) [
  | inl same ↦
      subst
        (λ j.
          After k s (observe now s (j, b)) (entry_seen k now since (j, b)).0
            (entry_seen k now since (j, b)).1)
        ((eq_iff k h).0 same) (observe-same now s k b since e nz)
  | inr other ↦ observe-other now s k h b since e other
]
