-- ===== src/Opcode/Store.antt =====
-- opcodes.h: the opcodes that store or work on the stack.
use shujit.Base.{ℕ}

abbrev pub opc_istore : ℕ
opc_istore = 54

abbrev pub opc_lstore : ℕ
opc_lstore = 55

abbrev pub opc_fstore : ℕ
opc_fstore = 56

abbrev pub opc_dstore : ℕ
opc_dstore = 57

abbrev pub opc_astore : ℕ
opc_astore = 58

abbrev pub opc_istore_0 : ℕ
opc_istore_0 = 59

abbrev pub opc_istore_1 : ℕ
opc_istore_1 = 60

abbrev pub opc_istore_2 : ℕ
opc_istore_2 = 61

abbrev pub opc_istore_3 : ℕ
opc_istore_3 = 62

abbrev pub opc_lstore_0 : ℕ
opc_lstore_0 = 63

abbrev pub opc_lstore_1 : ℕ
opc_lstore_1 = 64

abbrev pub opc_lstore_2 : ℕ
opc_lstore_2 = 65

abbrev pub opc_lstore_3 : ℕ
opc_lstore_3 = 66

abbrev pub opc_fstore_0 : ℕ
opc_fstore_0 = 67

abbrev pub opc_fstore_1 : ℕ
opc_fstore_1 = 68

abbrev pub opc_fstore_2 : ℕ
opc_fstore_2 = 69

abbrev pub opc_fstore_3 : ℕ
opc_fstore_3 = 70

abbrev pub opc_dstore_0 : ℕ
opc_dstore_0 = 71

abbrev pub opc_dstore_1 : ℕ
opc_dstore_1 = 72

abbrev pub opc_dstore_2 : ℕ
opc_dstore_2 = 73

abbrev pub opc_dstore_3 : ℕ
opc_dstore_3 = 74

abbrev pub opc_astore_0 : ℕ
opc_astore_0 = 75

abbrev pub opc_astore_1 : ℕ
opc_astore_1 = 76

abbrev pub opc_astore_2 : ℕ
opc_astore_2 = 77

abbrev pub opc_astore_3 : ℕ
opc_astore_3 = 78

abbrev pub opc_iastore : ℕ
opc_iastore = 79

abbrev pub opc_lastore : ℕ
opc_lastore = 80

abbrev pub opc_fastore : ℕ
opc_fastore = 81

abbrev pub opc_dastore : ℕ
opc_dastore = 82

abbrev pub opc_aastore : ℕ
opc_aastore = 83

abbrev pub opc_bastore : ℕ
opc_bastore = 84

abbrev pub opc_castore : ℕ
opc_castore = 85

abbrev pub opc_sastore : ℕ
opc_sastore = 86
