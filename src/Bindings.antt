-- ===== src/Bindings.antt =====
-- bindings.go: the store behind both implementations of Bindings, and their Add methods. The
-- mutex serialises the calls, so each is one step.
pub mod Heap
pub mod Store
pub mod Runs
use Prim.Native.Nat.{◌/◌, ◌%◌}
use Prim.Native.String.{◌++◌ as append}
use text.Mathlib.Text.{find?}
use scaffold_go.Base.{
  ℕ, zero, suc, String, ◌++◌, ◌+◌, Option, none, some, List, [], ◌∷◌, str_eq, is_some, length,
  get_elem?, set, ltb, map, if◌then◌else◌,
}
use scaffold_go.Go.{ℤ, pos, negsuc, Outcome, returns, panics, sprintf, str}
use scaffold_go.Binding.{Binding, new_binding}
use scaffold_go.Binding.Setters.{Setter, call_setter}
use scaffold_go.System.{BindingsKind, BindingStore}

-- `m[name]` of a map from names to bindings; nil when it is missing, also from a nil map.
unfoldable pub lookup : String → List (String × ℕ) → Option ℕ
lookup name [] = none
lookup name ((k, r) ∷ m) = if str_eq k name then some r else lookup name m

-- bindingStore.add. The new binding's pointer is the next index of the heap.
unfoldable pub add : String → String → BindingStore → BindingStore × Outcome ℕ
unfolding lookup
add name listen_addr s =
    let r = length s.heap in
    if is_some (lookup name s.by_name)
    then (s, panics (sprintf "scaffold: Bindings.Add: duplicate binding name %q" (str name ∷ [])))
    else (
      record s {
        by_name = (name, r) ∷ s.by_name;
        order = s.order ++ name ∷ [];
        heap = s.heap ++ new_binding name listen_addr ∷ [];
      },
      returns r,
    )

-- bindingStore.Get
unfoldable pub get : String → BindingStore → Option ℕ
unfolding lookup
get name s = lookup name s.by_name

-- bindingStore.orderedBindings
unfoldable pub ordered_bindings : BindingStore → List (Option ℕ)
unfolding lookup
ordered_bindings s = map (λ name. lookup name s.by_name) s.order

unfoldable pub digit : ℕ → String
digit zero = "0"
digit (suc zero) = "1"
digit (suc (suc zero)) = "2"
digit (suc (suc (suc zero))) = "3"
digit (suc (suc (suc (suc zero)))) = "4"
digit (suc (suc (suc (suc (suc zero))))) = "5"
digit (suc (suc (suc (suc (suc (suc zero)))))) = "6"
digit (suc (suc (suc (suc (suc (suc (suc zero))))))) = "7"
digit (suc (suc (suc (suc (suc (suc (suc (suc zero)))))))) = "8"
digit (suc (suc (suc (suc (suc (suc (suc (suc (suc n))))))))) = "9"

-- Decimal digits; an int has at most nineteen.
unfoldable pub decimal : ℕ → ℕ → String
unfolding digit
decimal zero n = ""
decimal (suc fuel) n =
    let rest = append (decimal fuel (n / 10)) (digit (n % 10)) in if ltb n 10 then digit n else rest

-- `fmt.Sprintf("%d", n)`
unfoldable pub format_int : ℤ → String
unfolding decimal
format_int (pos n) = decimal 20 n
format_int (negsuc n) = append "-" (decimal 20 (n + 1))

-- `net.JoinHostPort`: a host that holds a colon, as an IPv6 literal does, is bracketed.
unfoldable pub join_host_port : String → String → String
join_host_port host port =
    if is_some (find? host ":")
    then append "[" (append host (append "]:" port))
    else append host (append ":" port)

-- DefaultBindings.Add
unfoldable pub default_add : String → String → ℤ → BindingStore → BindingStore × Outcome ℕ
unfolding add join_host_port format_int
default_add bind_addr name port s = add name (join_host_port bind_addr (format_int port)) s

-- TestBindings.Add
unfoldable pub test_add : String → ℤ → BindingStore → BindingStore × Outcome ℕ
unfolding add
test_add name port s = add name "127.0.0.1:0" s

-- A setter called through a pointer that Add or Get gave out; a nil pointer faults.
unfoldable pub configure : ℕ → Setter → BindingStore → BindingStore × Outcome (Unit {0})
unfolding call_setter
configure r c s = elim (get_elem? s.heap r) [
  | none ↦ (s, panics (sprintf "invalid memory address or nil pointer dereference" []))
  | some b ↦ let (b', end) = call_setter c b in (record s { heap = set s.heap r b' }, end)
]
