-- ===== src/Signal/Hub/Bindings.antt =====
-- What binding a connection to a user, and taking it away, does to the table of users.
use mgl_communication.Base.{
  String, true, false, ◌&&◌, ◌==◌, if◌then◌else◌, Option, none, some, List, [], ◌∷◌, is_empty, Dict,
  lookup, insert, lookup-insert, lookup-erase, contains, add_member, contains-add_member, ◌≡◌, refl,
  arith,
}
use mgl_communication.Signal.Hub.{members, ids_of, without, unbind_from, unbind}

-- A list without repetitions.
abbrev pub Distinct : List String → Type 0
Distinct [] = Unit
Distinct (x ∷ xs) = (contains x xs ≡ false) × Distinct xs

add_member-Distinct : (s : String) (xs : List String) → Distinct xs → Distinct (add_member s xs)
unfolding add_member
add_member-Distinct s xs d = ground (arith, d)

pub contains-without :
    (k id : String) (xs : List String)
    → contains k (without id xs) ≡ (if k == id then false else contains k xs)
contains-without k id [] = ground arith
contains-without k id (x ∷ xs) = ground (arith, contains-without k id xs)

without-Distinct : (id : String) (xs : List String) → Distinct xs → Distinct (without id xs)
without-Distinct id [] d = tt
without-Distinct id (x ∷ xs) d =
    ground (arith, without-Distinct id xs d.1, contains-without x id xs, d.0)

-- The table after a connection was bound.
abbrev pub bound_in : String → String → Dict (List String) → Dict (List String)
bound_in uk id m = insert uk (add_member id (members uk m)) m

pub contains-bound_in :
    (uk k j id : String) (m : Dict (List String))
    → contains k (members uk (bound_in j id m))
      ≡ (if uk == j && k == id then true else contains k (members uk m))
contains-bound_in uk k j id m = ground (
  arith,
  lookup-insert uk j (add_member id (members j m)) m,
  contains-add_member id k (members j m),
)

pub bound_in-Distinct :
    (uk j id : String) (m : Dict (List String))
    → ((u : String) → Distinct (members u m))
    → Distinct (members uk (bound_in j id m))
bound_in-Distinct uk j id m d = ground (
  arith,
  lookup-insert uk j (add_member id (members j m)) m,
  add_member-Distinct id (members j m) (d j),
  d uk,
)

empty-nil : (xs : List String) → is_empty xs ≡ true → xs ≡ []
empty-nil [] e = refl
empty-nil (x ∷ xs) e = cc

-- The user's entry goes with its last connection, which `members` does not show.
members-unbind_from :
    (uk j id : String) (o : Option (List String)) (m : Dict (List String))
    → lookup j m ≡ o
    → members uk (unbind_from j id o m) ≡ (if uk == j then without id (ids_of o) else members uk m)
members-unbind_from uk j id none m e = ground (arith, e)
members-unbind_from uk j id (some ids) m e = ground (
  arith,
  e,
  lookup-insert uk j (without id ids) m,
  lookup-erase uk j m,
  empty-nil (without id ids),
)

members-unbind :
    (uk j id : String) (m : Dict (List String))
    → members uk (unbind j id m) ≡ (if uk == j then without id (members j m) else members uk m)
unfolding unbind
members-unbind uk j id m = members-unbind_from uk j id (lookup j m) m refl

pub contains-unbind :
    (uk k j id : String) (m : Dict (List String))
    → contains k (members uk (unbind j id m))
      ≡ (if uk == j && k == id then false else contains k (members uk m))
contains-unbind uk k j id m =
    ground (arith, members-unbind uk j id m, contains-without k id (members j m))

pub unbind-Distinct :
    (uk j id : String) (m : Dict (List String))
    → ((u : String) → Distinct (members u m))
    → Distinct (members uk (unbind j id m))
unbind-Distinct uk j id m d =
    ground (arith, members-unbind uk j id m, without-Distinct id (members j m) (d j), d uk)
