-- ===== src/Vm/OpCode.antt =====
-- neo/VM/OpCode.py: the opcodes, as the number of their byte. PUSHBYTES2 to PUSHBYTES74 are the
-- numbers between the two that are named.
use Prim.Native.Nat.{ℕ}

abbrev pub push0 : ℕ
push0 = 0x00

abbrev pub pushbytes1 : ℕ
pushbytes1 = 0x01

abbrev pub pushbytes75 : ℕ
pushbytes75 = 0x4b

abbrev pub pushdata1 : ℕ
pushdata1 = 0x4c

abbrev pub pushdata2 : ℕ
pushdata2 = 0x4d

abbrev pub pushdata4 : ℕ
pushdata4 = 0x4e

abbrev pub pushm1 : ℕ
pushm1 = 0x4f

abbrev pub push1 : ℕ
push1 = 0x51

abbrev pub push2 : ℕ
push2 = 0x52

abbrev pub push3 : ℕ
push3 = 0x53

abbrev pub push4 : ℕ
push4 = 0x54

abbrev pub push5 : ℕ
push5 = 0x55

abbrev pub push6 : ℕ
push6 = 0x56

abbrev pub push7 : ℕ
push7 = 0x57

abbrev pub push8 : ℕ
push8 = 0x58

abbrev pub push9 : ℕ
push9 = 0x59

abbrev pub push10 : ℕ
push10 = 0x5a

abbrev pub push11 : ℕ
push11 = 0x5b

abbrev pub push12 : ℕ
push12 = 0x5c

abbrev pub push13 : ℕ
push13 = 0x5d

abbrev pub push14 : ℕ
push14 = 0x5e

abbrev pub push15 : ℕ
push15 = 0x5f

abbrev pub push16 : ℕ
push16 = 0x60

abbrev pub nop : ℕ
nop = 0x61

abbrev pub jmp : ℕ
jmp = 0x62

abbrev pub jmpif : ℕ
jmpif = 0x63

abbrev pub jmpifnot : ℕ
jmpifnot = 0x64

abbrev pub call : ℕ
call = 0x65

abbrev pub ret : ℕ
ret = 0x66

abbrev pub appcall : ℕ
appcall = 0x67

abbrev pub syscall : ℕ
syscall = 0x68

abbrev pub tailcall : ℕ
tailcall = 0x69

abbrev pub dupfromaltstack : ℕ
dupfromaltstack = 0x6a

abbrev pub toaltstack : ℕ
toaltstack = 0x6b

abbrev pub fromaltstack : ℕ
fromaltstack = 0x6c

abbrev pub xdrop : ℕ
xdrop = 0x6d

abbrev pub xswap : ℕ
xswap = 0x72

abbrev pub xtuck : ℕ
xtuck = 0x73

abbrev pub depth : ℕ
depth = 0x74

abbrev pub drop : ℕ
drop = 0x75

abbrev pub dup : ℕ
dup = 0x76

abbrev pub nip : ℕ
nip = 0x77

abbrev pub over : ℕ
over = 0x78

abbrev pub pick : ℕ
pick = 0x79

abbrev pub roll : ℕ
roll = 0x7a

abbrev pub rot : ℕ
rot = 0x7b

abbrev pub swap : ℕ
swap = 0x7c

abbrev pub tuck : ℕ
tuck = 0x7d

abbrev pub cat : ℕ
cat = 0x7e

abbrev pub substr : ℕ
substr = 0x7f

abbrev pub left : ℕ
left = 0x80

abbrev pub right : ℕ
right = 0x81

abbrev pub size : ℕ
size = 0x82

abbrev pub invert : ℕ
invert = 0x83

abbrev pub and : ℕ
and = 0x84

abbrev pub or : ℕ
or = 0x85

abbrev pub xor : ℕ
xor = 0x86

abbrev pub equal : ℕ
equal = 0x87

abbrev pub inc : ℕ
inc = 0x8b

abbrev pub dec : ℕ
dec = 0x8c

abbrev pub sign : ℕ
sign = 0x8d

abbrev pub negate : ℕ
negate = 0x8f

abbrev pub abs : ℕ
abs = 0x90

abbrev pub not : ℕ
not = 0x91

abbrev pub nz : ℕ
nz = 0x92

abbrev pub add : ℕ
add = 0x93

abbrev pub sub : ℕ
sub = 0x94

abbrev pub mul : ℕ
mul = 0x95

abbrev pub div : ℕ
div = 0x96

abbrev pub modulo : ℕ
modulo = 0x97

abbrev pub shl : ℕ
shl = 0x98

abbrev pub shr : ℕ
shr = 0x99

abbrev pub booland : ℕ
booland = 0x9a

abbrev pub boolor : ℕ
boolor = 0x9b

abbrev pub numequal : ℕ
numequal = 0x9c

abbrev pub numnotequal : ℕ
numnotequal = 0x9e

abbrev pub lt : ℕ
lt = 0x9f

abbrev pub gt : ℕ
gt = 0xa0

abbrev pub lte : ℕ
lte = 0xa1

abbrev pub gte : ℕ
gte = 0xa2

abbrev pub min : ℕ
min = 0xa3

abbrev pub max : ℕ
max = 0xa4

abbrev pub within : ℕ
within = 0xa5

abbrev pub sha1 : ℕ
sha1 = 0xa7

abbrev pub sha256 : ℕ
sha256 = 0xa8

abbrev pub hash160 : ℕ
hash160 = 0xa9

abbrev pub hash256 : ℕ
hash256 = 0xaa

abbrev pub checksig : ℕ
checksig = 0xac

abbrev pub verify : ℕ
verify = 0xad

abbrev pub checkmultisig : ℕ
checkmultisig = 0xae

abbrev pub arraysize : ℕ
arraysize = 0xc0

abbrev pub pack : ℕ
pack = 0xc1

abbrev pub unpack : ℕ
unpack = 0xc2

abbrev pub pickitem : ℕ
pickitem = 0xc3

abbrev pub setitem : ℕ
setitem = 0xc4

abbrev pub newarray : ℕ
newarray = 0xc5

abbrev pub newstruct : ℕ
newstruct = 0xc6

abbrev pub newmap : ℕ
newmap = 0xc7

abbrev pub append : ℕ
append = 0xc8

abbrev pub reverse : ℕ
reverse = 0xc9

abbrev pub remove : ℕ
remove = 0xca

abbrev pub haskey : ℕ
haskey = 0xcb

abbrev pub keys : ℕ
keys = 0xcc

abbrev pub values : ℕ
values = 0xcd

abbrev pub call_i : ℕ
call_i = 0xe0

abbrev pub call_e : ℕ
call_e = 0xe1

abbrev pub call_ed : ℕ
call_ed = 0xe2

abbrev pub call_et : ℕ
call_et = 0xe3

abbrev pub call_edt : ℕ
call_edt = 0xe4

abbrev pub throw : ℕ
throw = 0xf0

abbrev pub throwifnot : ℕ
throwifnot = 0xf1
