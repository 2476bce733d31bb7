-- ===== src/Kv/Alone/Typed.antt =====
-- The values that handlers are called with. In the source an operation is a `void*`, which a
-- callback casts to the class that it takes it for, and `complete` calls the function of that
-- class.
use silkoroutine.Common.{
  ℕ, zero, suc, Bool, false, List, [], ◌∷◌, ◌++◌, Option, none, some, ◌≡◌, refl, sym, ap, ◌∙◌, All,
  get_elem?, set,
}
use silkoroutine.Remote.{Pair}
use silkoroutine.Kv.World.{
  Operation, Payload, id, pair, empty, FuncType, open_cursor_func, seek_func, next_func,
  close_cursor_func, close_func, Command, return, throw, write_start, read_start, close_start, post,
  complete, print, stop,
}

-- The type of the value that the handler of an operation takes.
pub data ValueType : Type 0 where
  id_type pair_type empty_type : ValueType

abbrev pub type_of : Payload → ValueType
type_of (id n) = id_type
type_of (pair p) = pair_type
type_of empty = empty_type

abbrev pub wanted : FuncType → ValueType
wanted open_cursor_func = id_type
wanted seek_func = pair_type
wanted next_func = pair_type
wanted close_cursor_func = id_type
wanted close_func = id_type

-- An upcall is that of an operation, which had the handler, and the value has the type that it
-- takes.
pub record IsUpcallOf (operations : List Operation) (u : ℕ × Payload) : Type 0 where
  pub address : ℕ
  pub operation : Operation
  pub there : get_elem? operations address ≡ some operation
  pub handler : operation.handler ≡ u.0
  pub typed : wanted operation.func ≡ type_of u.1

-- The code completes operations with values that they take.
abbrev pub Fits : List Operation → Command → Type 0
Fits os return = Unit
Fits os (throw e) = Unit
Fits os (write_start m k) = (b : Bool) → Fits os (k b)
Fits os (read_start k) = (b : Bool) (p : Pair) → Fits os (k b p)
Fits os (close_start k) = (b : Bool) → Fits os (k b)
Fits os (post c) = Fits os c
Fits os (complete op p) = (o : Operation) × (get_elem? os op ≡ some o) × (wanted o.func ≡ type_of p)
Fits os (print line k) = Fits os k
Fits os stop = Unit

abbrev pub FitsIn : List Operation → Option Command → Type 0
FitsIn os none = Unit
FitsIn os (some c) = Fits os c

-- Operations that keep what they are.
abbrev pub Keeps : List Operation → List Operation → Type 0
Keeps os os' =
    (i : ℕ) (o : Operation)
    → get_elem? os i ≡ some o
    → (o' : Operation) × (get_elem? os' i ≡ some o') × (o'.func ≡ o.func) × (o'.handler ≡ o.handler)

pub IsUpcallOf-map :
    (us : List (ℕ × Payload)) (os os' : List Operation)
    → Keeps os os'
    → All (IsUpcallOf os) us
    → All (IsUpcallOf os') us
IsUpcallOf-map [] os os' k a = tt
IsUpcallOf-map (u ∷ us) os os' k (a, as') =
    let (o, there, func, handler) = k a.address a.operation a.there in
    (
      record {
        address = a.address;
        operation = o;
        there = there;
        handler = handler ∙ a.handler;
        typed = ap wanted func ∙ a.typed;
      },
      IsUpcallOf-map us os os' k as',
    )

pub Keeps-append : (os more : List Operation) → Keeps os (os ++ more)
Keeps-append [] more i o e = cc
Keeps-append (x ∷ os) more zero o e = (o, e, refl, refl)
Keeps-append (x ∷ os) more (suc i) o e = Keeps-append os more i o e

pub Keeps-set :
    (os : List Operation) (base : ℕ) (h : Operation)
    → get_elem? os base ≡ some h
    → Keeps os (set os base (record h { is_live = false }))
Keeps-set [] base h e i o f = cc
Keeps-set (x ∷ os) zero h e zero o f =
    let same : o ≡ h = cc in
    (
      record h { is_live = false },
      refl,
      ap (λ (y : Operation). y.func) (sym same),
      ap (λ (y : Operation). y.handler) (sym same),
    )
Keeps-set (x ∷ os) zero h e (suc i) o f = (o, f, refl, refl)
Keeps-set (x ∷ os) (suc base) h e zero o f = (o, f, refl, refl)
Keeps-set (x ∷ os) (suc base) h e (suc i) o f = Keeps-set os base h e i o f

pub Fits-map : (c : Command) (os os' : List Operation) → Keeps os os' → Fits os c → Fits os' c
Fits-map return os os' k f = tt
Fits-map (throw e) os os' k f = tt
Fits-map (write_start m g) os os' k f = λ b. Fits-map (g b) os os' k (f b)
Fits-map (read_start g) os os' k f = λ b p. Fits-map (g b p) os os' k (f b p)
Fits-map (close_start g) os os' k f = λ b. Fits-map (g b) os os' k (f b)
Fits-map (post c) os os' k f = Fits-map c os os' k f
Fits-map (complete op p) os os' k (o, there, typed) =
    let (o', there', func, handler) = k op o there in (o', there', ap wanted func ∙ typed)
Fits-map (print line c) os os' k f = Fits-map c os os' k f
Fits-map stop os os' k f = tt

pub FitsIn-map :
    (c : Option Command) (os os' : List Operation) → Keeps os os' → FitsIn os c → FitsIn os' c
FitsIn-map none os os' k f = tt
FitsIn-map (some c) os os' k f = Fits-map c os os' k f

pub All-Fits-map :
    (cs : List Command) (os os' : List Operation)
    → Keeps os os'
    → All (Fits os) cs
    → All (Fits os') cs
All-Fits-map [] os os' k f = tt
All-Fits-map (c ∷ cs) os os' k (f, fs) = (Fits-map c os os' k f, All-Fits-map cs os os' k fs)
