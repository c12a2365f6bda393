-- ===== src/Stone/Closure.antt =====
-- apsara/stone/base/closure.h: the closures, one family for all numbers of arguments. `As` are the types
-- of the arguments that a closure binds when it is made, `Bs` of those that `Run` takes. A closure that
-- was deleted is `none`. `S` is the state that the functions change.
pub mod Calls
mod Examples
use recommender.Prelude.{Bool, true, false, Option, none, some, List, [], ◌∷◌, ◌++◌}
use recommender.Run.{Run, ok, fault}

-- Values of the types in a list.
abbrev pub Args : List (Type 0) → Type 0
Args [] = Unit {0}
Args (A ∷ As) = A × Args As

abbrev pub both_args : (As Bs : List (Type 0)) → Args As → Args Bs → Args (As ++ Bs)
both_args [] Bs as' bs = bs
both_args (A ∷ As) Bs (a, as') bs = (a, both_args As Bs as' bs)

-- The destructor of `SelfDeleter`, on the object.
abbrev pub self_delete : {C : Type 0} → Bool → Option C → Option C
self_delete true o = none
self_delete false o = o

-- `MethodClosure_k_m`, with the object whose method is called, and `FunctionClosure_k_m`.
pub record MethodClosure (S R T : Type 0) (As Bs : List (Type 0)) : Type 0 where
  pub del : Bool
  pub m_obj : T
  pub m_func : T → Args (As ++ Bs) → S → S × R
  pub m_args : Args As

pub record FunctionClosure (S R : Type 0) (As Bs : List (Type 0)) : Type 0 where
  pub del : Bool
  pub m_func : Args (As ++ Bs) → S → S × R
  pub m_args : Args As

module _ {S R T : Type 0} (As Bs : List (Type 0)) where
  -- `Run`: the state, the result, and the closure after it.
  unfoldable pub run_method :
      Option (MethodClosure S R T As Bs)
      → Args Bs
      → S
      → Run ((S × R) × Option (MethodClosure S R T As Bs))
  run_method none args s = fault
  run_method (some c) args s =
      ok (c.m_func c.m_obj (both_args As Bs c.m_args args) s, self_delete c.del (some c))

  -- `NewClosure` and `NewPermanentClosure` of a method.
  unfoldable pub new_method_closure :
      T → (T → Args (As ++ Bs) → S → S × R) → Args As → Option (MethodClosure S R T As Bs)
  new_method_closure obj func args =
      some (record { del = true; m_obj = obj; m_func = func; m_args = args })

  unfoldable pub new_permanent_method_closure :
      T → (T → Args (As ++ Bs) → S → S × R) → Args As → Option (MethodClosure S R T As Bs)
  new_permanent_method_closure obj func args =
      some (record { del = false; m_obj = obj; m_func = func; m_args = args })

module _ {S R : Type 0} (As Bs : List (Type 0)) where
  unfoldable pub run_function :
      Option (FunctionClosure S R As Bs)
      → Args Bs
      → S
      → Run ((S × R) × Option (FunctionClosure S R As Bs))
  run_function none args s = fault
  run_function (some c) args s =
      ok (c.m_func (both_args As Bs c.m_args args) s, self_delete c.del (some c))

  -- `NewClosure` and `NewPermanentClosure` of a function.
  unfoldable pub new_closure :
      (Args (As ++ Bs) → S → S × R) → Args As → Option (FunctionClosure S R As Bs)
  new_closure func args = some (record { del = true; m_func = func; m_args = args })

  unfoldable pub new_permanent_closure :
      (Args (As ++ Bs) → S → S × R) → Args As → Option (FunctionClosure S R As Bs)
  new_permanent_closure func args = some (record { del = false; m_func = func; m_args = args })

  -- `IsAutoDelete`
  unfoldable pub is_auto_delete : Option (FunctionClosure S R As Bs) → Run Bool
  is_auto_delete none = fault
  is_auto_delete (some c) = ok c.del

-- `delete closure`, through the virtual destructor.
abbrev pub delete_closure : {C : Type 0} → Option C → Run (Option C)
delete_closure none = fault
delete_closure (some c) = ok none
