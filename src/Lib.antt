-- ===== src/Lib.antt =====
-- A model of neo-python, a node of the NEO blockchain in Python: its virtual machine with the engine
-- that runs contracts, the caches of its storage, the values and states of the ledger, and their
-- binary form.
--
-- The program. The engine of neo/VM/ExecutionEngine.py runs scripts of bytes. A script is decoded
-- one instruction at a time (neo/VM/Instruction.py, neo/VM/Script.py, neo/VM/OpCode.py) at the
-- pointer of an execution context (neo/VM/ExecutionContext.py). The contexts stand on an invocation
-- stack, and each has an evaluation stack and an alternative stack; all of them are
-- RandomAccessStacks (neo/VM/RandomAccessStack.py). The items on the stacks are those of
-- neo/VM/InteropService.py; numbers are BigIntegers (neo/Core/BigInteger.py). The state of the
-- engine is a set of flags (neo/VM/VMState.py); a fault is reported by a number
-- (neo/VM/VMFault.py). neo/SmartContract/ApplicationEngine.py extends the engine: before each
-- instruction it counts operations and gas, and a SYSCALL calls a service that
-- neo/SmartContract/StateReader.py and StateMachine.py register by name. The services read and change
-- the ledger through caches (neo/Storage/Common/DataCache.py, CloneCache.py), which keep the states of
-- neo/Core/State until they are committed to a database. The states are written and read by
-- neo/Core/IO.
--
-- The files.
--   Prelude: names that all modules share; lists, Python's integers over the native numbers, dicts
--     with byte strings as keys (Dict), and texts as bytes (Text).
--   Core/BigInteger: FromBytes, ToByteArray and the operators that are not int's. Its children have
--     the proofs.
--   Core/Io: Hex is binascii; BinaryWriter gives what each method appends, BinaryReader what each
--     method reads from the rest of a stream; Streams sequences and repeats both. RoundTrip has the
--     single methods, Trips and its children the rules by which a sequence of reads undoes a
--     sequence of writes.
--   Core/UIntBase: neo/Core/UIntBase.py with UInt160 and UInt256; Text and Order have the proofs.
--   Core/MerkleTree: neo/Core/Cryptography/MerkleTree.py; Leaves and Depth have the proofs.
--   Core/AccountState, Core/SpentCoinState, Core/UnspentCoinState: the classes of neo/Core/State.
--     AccountState/Serial has the binary form, RoundTrip its proof, Balances, Indices and Marks the
--     other operations.
--   Core/Transaction: the results and the network fee of neo/Core/TX/Transaction.py; Results has the
--     sums by asset.
--   Core/Blockchain: the amount of CalculateBonusInternal in neo/Core/Blockchain.py. Generation has the
--     sum over blocks and the loop, Claims the branches.
--   Vm/OpCode, Vm/Instruction: the numbers of the opcodes; ReadExactBytes, FromScriptAndIP, Size and
--     the tokens. Instruction/Bounds has the proofs.
--   Vm/RandomAccessStack: one function for each method. A method that raises gives `none`. The count
--     `_size` is a field of its own beside the list, as in the class. Laws has the invariant, TopDown
--     the refinement to a list from the top.
--   Vm/StackItem: the items, and the heap in which the lists of Array and Struct and the dicts of Map
--     stand, since items share them. Vm/StackItem/Equality: Equals, ==, the hash, the lookup of a
--     dict, Struct.Clone.
--   Vm/State: the engine's fields as a record, the results of an action (a value, a `return` in the
--     middle of an instruction, an exception), and the Host: what the engine is given.
--   Vm/Engine: the sequencing of actions, the stacks of a context, the limits (CheckBigInteger,
--     CheckStackSize, GetItemCount and so on), the contexts and the loading of scripts. ItemCount has
--     the end of the loop of GetItemCount.
--   Vm/Ops: a function for each branch of ExecuteInstruction, in files by the groups of the source.
--   Vm/Execute: the table of the branches, ExecuteInstruction, ExecuteNext and Execute.
--   Vm/ScriptBuilder: the pushes of buffers and integers; RoundTrip has the proof.
--   Vm/Control: what leaves the control state alone. Vm/Safety: the invariant of the control state,
--     by triples with a postcondition for values and one for returns and exceptions; Safety/Quiet has
--     the same for the counters of operations and gas.
--   SmartContract/InteropService, SmartContract/Registrations: Register, Invoke and the table of the
--     services, whose methods are parameters. SmartContract/ApplicationEngine: the prices,
--     the hooks before and after an instruction, and Run. Steps, Passes and Termination follow a run
--     with a measure that goes down, Gas and Prices have the amounts.
--   Storage/DataCache: the cache over a store, which is an interface with laws (Views); Commit,
--     Operations and Changes relate it to the map from keys to items that it shows. Storage/CloneCache:
--     the cache over a cache, as one more store.
--   Tests in each folder, Vm/TestHost: runs of small inputs, and the theorems at concrete ones.
--
-- Bounds and fuel. The loop of Execute takes fuel, and gives `none` where it runs out: a script may
-- loop for ever, and the statements on runs are about the states that are reached, not about fuel.
-- A test invocation takes 501025: the limit of 500000 free operations, a return for each of the 1024
-- contexts, and the halt.
-- GetItemCount takes fuel for every item on the stacks and for each one that a collection of the heap
-- holds, since a collection is expanded once; this is Engine/ItemCount. The recursion of Equals, == and
-- Clone goes as deep as the limit of the Host, and what lies deeper is Python's RecursionError.
-- The build of a Merkle tree takes a unit of fuel for each hash, and a level has fewer nodes than the
-- one below it. Heights below 2^53 are divided exactly by Python's floats.
--
-- Not modelled. The Host stands for the crypto library, the script table, the message of the script
-- container, the services, and the methods that ApplicationEngine overrides, which
-- SmartContract/ApplicationEngine then gives. The log, the debugger and the cache of decoded
-- instructions are left out; an instruction depends on the script and the pointer alone. Floats of
-- BigInteger.__truediv__ are rounded half to even by hand. Of the ledger, the binary form and
-- verification of transactions, blocks and the persisting of blocks are left out so far, and the
-- states of assets, contracts and validators; the databases, wallets, network, prompt and servers are not modelled.
pub mod Prelude
pub mod Core
pub mod Vm
pub mod SmartContract
pub mod Storage
