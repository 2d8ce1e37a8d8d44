-- ===== src/Vm/Engine/Stacks.antt =====
-- The evaluation and alternative stack of a context, as the instructions use them.
use neo_python.Prelude.{Bool, List, Option, some, ℕ, ◌+◌}
use neo_python.Prelude.Int.{ℤ}
use neo_python.Vm.Engine.Monad.{commit, commit_unit, gets, modify, or_raise, pure, ◌>>=◌}
use neo_python.Vm.RandomAccessStack.{RandomAccessStack, insert, peek, pop, push_t, remove, set_item}
use neo_python.Vm.StackItem.{
  StackItem, array, boolean, byte_array, get_big_integer, get_boolean, get_byte_array, integer,
  update,
}
use neo_python.Vm.State.{Action, Engine, ExecutionContext, ok}

pub data StackName : Type 0 where
  evaluation alternative : StackName

abbrev pub stack_of : StackName → ExecutionContext → RandomAccessStack StackItem
stack_of evaluation c = c.evaluation_stack
stack_of alternative c = c.alt_stack

abbrev pub with_stack :
    StackName → RandomAccessStack StackItem → ExecutionContext → ExecutionContext
with_stack evaluation s c = record c { evaluation_stack = s }
with_stack alternative s c = record c { alt_stack = s }

-- Write a stack of a context.
abbrev pub put_stack : ℕ → StackName → RandomAccessStack StackItem → Engine → Engine
put_stack c w s e = record e { contexts = update e.contexts c (with_stack w s (e.contexts c)) }

-- A method of a stack that returns a value and may raise.
unfoldable pub run_stack :
    {A : Type 0}
    → ℕ
    → StackName
    → (RandomAccessStack StackItem → Option (A × RandomAccessStack StackItem))
    → Action A
run_stack c w f e = commit (f (stack_of w (e.contexts c))) (put_stack c w) e

-- A method that only writes, and may raise.
unfoldable pub write_stack :
    ℕ
    → StackName
    → (RandomAccessStack StackItem → Option (RandomAccessStack StackItem))
    → Action (Unit {0})
write_stack c w f e = commit_unit (f (stack_of w (e.contexts c))) (put_stack c w) e

unfoldable pub pop_from : ℕ → StackName → Action StackItem
pop_from c w = run_stack c w pop

unfoldable pub push_on : ℕ → StackName → StackItem → Action (Unit {0})
push_on c w item = write_stack c w (λ s. some (push_t item s))

unfoldable pub peek_at : ℕ → StackName → ℤ → Action StackItem
peek_at c w index = do s ← gets (λ e. stack_of w (e.contexts c)); or_raise (peek index s)

unfoldable pub remove_from : ℕ → ℤ → Action StackItem
remove_from c index = run_stack c evaluation (remove index)

unfoldable pub insert_into : ℕ → ℕ → StackItem → Action (Unit {0})
insert_into c index item = write_stack c evaluation (insert index item)

unfoldable pub set_at : ℕ → ℤ → StackItem → Action (Unit {0})
set_at c index item = write_stack c evaluation (set_item index item)

-- estack.Count
abbrev pub count_of : ℕ → Action ℕ
count_of c = gets (λ e. (e.contexts c).evaluation_stack.size)

-- `estack.Pop()`, and with the reading of the item that follows it.
abbrev pub pop_item : ℕ → Action StackItem
pop_item c = pop_from c evaluation

unfoldable pub pop_int : ℕ → Action ℤ
pop_int c = do or_raise (get_big_integer (← pop_from c evaluation))

unfoldable pub pop_bytes : ℕ → Action (List ℕ)
pop_bytes c = do or_raise (get_byte_array (← pop_from c evaluation))

unfoldable pub pop_bool : ℕ → Action Bool
pop_bool c = do x ← pop_from c evaluation; pure (get_boolean x)

-- A number for the identity of a new Boolean or InteropInterface.
unfoldable pub new_identity : Action ℕ
new_identity e = (ok e.heap.next, record e { heap = record e.heap { next = e.heap.next + 1 } })

-- A new list or dict.
unfoldable pub new_list : List StackItem → Action ℕ
new_list xs e = (
  ok e.heap.next,
  record e {
    heap = record e.heap { next = e.heap.next + 1; arrays = update e.heap.arrays e.heap.next xs };
  },
)

unfoldable pub new_dict : List (StackItem × StackItem) → Action ℕ
new_dict d e = (
  ok e.heap.next,
  record e {
    heap = record e.heap { next = e.heap.next + 1; maps = update e.heap.maps e.heap.next d };
  },
)

-- StackItem.New, by the type of what is pushed: an item, an integer, a boolean, bytes, a list.
abbrev pub push_item : ℕ → StackItem → Action (Unit {0})
push_item c x = push_on c evaluation x

unfoldable pub push_int : ℕ → ℤ → Action (Unit {0})
push_int c n = push_on c evaluation (integer n)

unfoldable pub push_bytes : ℕ → List ℕ → Action (Unit {0})
push_bytes c bs = push_on c evaluation (byte_array bs)

unfoldable pub push_bool : ℕ → Bool → Action (Unit {0})
push_bool c b = do i ← new_identity; push_on c evaluation (boolean i b)

unfoldable pub push_list : ℕ → List StackItem → Action (Unit {0})
push_list c xs = do r ← new_list xs; push_on c evaluation (array r)

-- The list and the dict behind an item, and their replacement.
abbrev pub list_at : ℕ → Action (List StackItem)
list_at r = gets (λ e. e.heap.arrays r)

abbrev pub dict_at : ℕ → Action (List (StackItem × StackItem))
dict_at r = gets (λ e. e.heap.maps r)

abbrev pub write_list : ℕ → List StackItem → Action (Unit {0})
write_list r xs =
    modify (λ e. record e { heap = record e.heap { arrays = update e.heap.arrays r xs } })

abbrev pub write_dict : ℕ → List (StackItem × StackItem) → Action (Unit {0})
write_dict r d = modify (λ e. record e { heap = record e.heap { maps = update e.heap.maps r d } })
