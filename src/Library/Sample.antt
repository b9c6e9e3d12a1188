-- ===== src/Library/Sample.antt =====
-- Concrete functions that meet the laws of `Library`, for the witnesses.
use ocm_k8s_toolkit.Prelude.{
  String, str_append, ◌≡◌, ◌≢◌, refl, Bool, true, false, Option, none, some, List, [], ◌∷◌, arith,
  ◌==◌, eq_iff, eq_refl, if◌then◌else◌, any,
}
use ocm_k8s_toolkit.Errors.{Error, new, external, sentinel, wrap, join, terminal}
use ocm_k8s_toolkit.Api.{Condition, is_true, is_false}
use ocm_k8s_toolkit.Library.{Library, Laws, ready_condition, reconciling_condition}

unfoldable pub find : List Condition → String → Option Condition
find [] t = none
find (d ∷ c) t = let rest = find c t in if d.type == t then some d else rest

unfoldable pub put : List Condition → Condition → List Condition
put [] e = e ∷ []
put (d ∷ c) e = let rest = put c e in if d.type == e.type then e ∷ c else d ∷ rest

unfoldable pub drop_type : List Condition → String → List Condition
drop_type [] t = []
drop_type (d ∷ c) t = let rest = drop_type c t in if d.type == t then rest else d ∷ rest

abbrev holds : Option Condition → Bool
holds none = false
holds (some d) = elim d.status [ is_true ↦ true | _ ↦ false ]

abbrev text : Error → String
text (new m) = m
text (external f) = "external error"
text (sentinel s) = "sentinel error"
text (wrap m e) = m
text (join a b) = "joined errors"
text (terminal e) = "terminal error"

unfoldable pub contains : List String → String → Bool
unfolding any
contains l f = any (λ g. g == f) l

unfoldable pub without : List String → String → List String
without [] f = []
without (g ∷ l) f = let rest = without l f in if g == f then rest else g ∷ rest

unfoldable pub add : List String → String → List String × Bool
unfolding contains
add l f = if contains l f then (l, false) else (f ∷ l, true)

abbrev pub sample : Library
sample = record {
  error_text = text;
  formatted = λ m. m;
  duration_text = λ n. "a while";
  key_text = λ k. str_append k.namespace (str_append "/" k.name);
  get = find;
  set = put;
  delete = drop_type;
  mark_true = λ c t r m. put c (record { type = t; status = is_true; reason = r; message = m });
  mark_false = λ c t r m. put c (record { type = t; status = is_false; reason = r; message = m });
  is_ready = λ c. holds (find c ready_condition);
  is_reconciling = λ c. holds (find c reconciling_condition);
  contains_finalizer = contains;
  add_finalizer = add;
  remove_finalizer = λ l f. (without l f, contains l f);
}

find-put : (c : List Condition) (e : Condition) → find (put c e) e.type ≡ some e
unfolding find put
find-put [] e = rw (eq_refl e.type)
find-put (d ∷ c) e = ground (arith, find-put c e, eq_refl e.type)

find-put_ne :
    (c : List Condition) (e : Condition) (u : String) → e.type ≢ u → find (put c e) u ≡ find c u
unfolding find put
find-put_ne [] e u h = ground (arith, eq_iff e.type u)
find-put_ne (d ∷ c) e u h =
    ground (arith, find-put_ne c e u h, eq_iff e.type u, eq_iff d.type e.type, eq_iff d.type u)

find-drop : (c : List Condition) (t : String) → find (drop_type c t) t ≡ none
unfolding find drop_type
find-drop [] t = refl
find-drop (d ∷ c) t = ground (arith, find-drop c t)

find-drop_ne : (c : List Condition) (t u : String) → t ≢ u → find (drop_type c t) u ≡ find c u
unfolding find drop_type
find-drop_ne [] t u h = refl
find-drop_ne (d ∷ c) t u h = ground (arith, find-drop_ne c t u h, eq_iff d.type t, eq_iff d.type u)

find_type : (c : List Condition) (t : String) (d : Condition) → find c t ≡ some d → d.type ≡ t
unfolding find
find_type [] t d h = cc
find_type (e ∷ c) t d h = ground (arith, find_type c t d, eq_iff e.type t)

contains-without : (l : List String) (f : String) → contains (without l f) f ≡ false
unfolding contains without
contains-without [] f = refl
contains-without (g ∷ l) f = ground (arith, contains-without l f)

without_missing : (l : List String) (f : String) → contains l f ≡ false → without l f ≡ l
unfolding contains without
without_missing [] f h = refl
without_missing (g ∷ l) f h = ground (arith, without_missing l f)

ready_true :
    (o : Option Condition) (d : Condition) → holds o ≡ true → o ≡ some d → d.status ≡ is_true
ready_true o d h e = ground arith

present : (o : Option Condition) → holds o ≡ true → o ≢ none
present none h = cc
present (some d) h = λ e. cc

contains-cons : (l : List String) (f : String) → contains (f ∷ l) f ≡ true
unfolding contains
contains-cons l f = rw (eq_refl f)

contains-add : (l : List String) (f : String) → contains (add l f).0 f ≡ true
unfolding add
contains-add l f = ground (arith, contains-cons l f)

pub sample_laws : Laws sample
unfolding find put drop_type contains add without
sample_laws = record {
  key_text_lem = λ k. refl;
  get-mark_true =
      λ c t r m. find-put c (record { type = t; status = is_true; reason = r; message = m });
  get-mark_false =
      λ c t r m. find-put c (record { type = t; status = is_false; reason = r; message = m });
  get-mark_true_ne = λ c t u r m h.
      find-put_ne c (record { type = t; status = is_true; reason = r; message = m }) u h;
  get-mark_false_ne = λ c t u r m h.
      find-put_ne c (record { type = t; status = is_false; reason = r; message = m }) u h;
  get-delete = find-drop;
  get-delete_ne = find-drop_ne;
  get-set = find-put;
  get-set_ne = find-put_ne;
  ready_status = λ c d h e. ready_true (find c ready_condition) d h e;
  ready_present = λ c h. present (find c ready_condition) h;
  reconciling_present = λ c h. present (find c reconciling_condition) h;
  get_type = find_type;
  add_finalizer_lem = λ l f h. rw h;
  add_finalizer_new = λ l f h. rw h;
  contains-add = contains-add;
  remove_finalizer_lem = λ l f. refl;
  remove_finalizer_missing = λ l f h. without_missing l f h;
  contains-remove = λ l f. contains-without l f;
}
