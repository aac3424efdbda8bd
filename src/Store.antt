-- ===== src/Store.antt =====
-- The heap of inc/types.h: objects, list nodes, lists, pairs and strings by their addresses.
use animula.Prelude.{ℕ, ◌+◌, ◌≡◌, ◌≢◌, false, ◌==◌, if◌then◌else◌, Option, none, some, List, arith}
use animula.Run.{Run, ok, fault}
use animula.Object.{OType, Object}

-- `struct ListNode`: the addresses of the next node and of the object. `NULL` is 0.
pub record ListNode : Type 0 where
  pub next : ℕ
  pub obj : ℕ

-- `struct List`: `first` is `list.slh_first`.
pub record ListHead : Type 0 where
  pub gc : ℕ
  pub non_shared : ℕ
  pub first : ℕ

-- `struct Pair`: the addresses of two objects.
pub record Pair : Type 0 where
  pub car : ℕ
  pub cdr : ℕ

pub record Store : Type 0 where
  -- The address of the next block.
  pub next : ℕ
  pub objects : ℕ → Option Object
  pub nodes : ℕ → Option ListNode
  pub lists : ℕ → Option ListHead
  pub pairs : ℕ → Option Pair
  -- A string is a block of bytes.
  pub strings : ℕ → Option (List ℕ)

module _ {ℓ} {A : Type ℓ} where
  abbrev pub put : (ℕ → Option A) → ℕ → A → ℕ → Option A
  put m p a q = if q == p then some a else m q

  abbrev pub fetch : (ℕ → Option A) → ℕ → Run A
  fetch m p = elim (m p) [ none ↦ fault | some a ↦ ok a ]

  pub fetch-some : (m : ℕ → Option A) (p : ℕ) (a : A) → m p ≡ some a → fetch m p ≡ ok a
  fetch-some m p a e = ground (arith, e)

  pub fetch-none : (m : ℕ → Option A) (p : ℕ) → m p ≡ none → fetch m p ≡ fault
  fetch-none m p e = ground (arith, e)

  pub put_same : (m : ℕ → Option A) (p : ℕ) (a : A) → put m p a p ≡ some a
  put_same m p a = ground arith

  pub put_other : (m : ℕ → Option A) (p q : ℕ) (a : A) → q ≢ p → put m p a q ≡ m q
  put_other m p q a h = ground (arith, h)

pub not_null : (p : ℕ) → p ≢ 0 → (p == 0) ≡ false
not_null p h = ground (arith, h)

-- `NEW_LIST_NODE`, `NEW_INNER_OBJ` and `NEW_OBJ (0)`: an allocation succeeds, with a zeroed block.
abbrev pub new_list_node : Store → Store
new_list_node s = record s {
  next = s.next + 1;
  nodes = put s.nodes s.next (record { next = 0; obj = 0 });
}

abbrev pub new_list : Store → Store
new_list s = record s {
  next = s.next + 1;
  lists = put s.lists s.next (record { gc = 0; non_shared = 0; first = 0 });
}

abbrev pub new_pair : Store → Store
new_pair s = record s {
  next = s.next + 1;
  pairs = put s.pairs s.next (record { car = 0; cdr = 0 });
}

abbrev pub new_object : Store → Store
new_object s = record s {
  next = s.next + 1;
  objects = put s.objects s.next (record { type = OType.imm_int; gc = 1; value = 0 });
}
