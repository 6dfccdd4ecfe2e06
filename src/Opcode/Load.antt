-- ===== src/Opcode/Load.antt =====
-- opcodes.h: the opcodes that load from a variable or an array.
use shujit.Base.{ℕ}

abbrev pub opc_iload : ℕ
opc_iload = 21

abbrev pub opc_lload : ℕ
opc_lload = 22

abbrev pub opc_fload : ℕ
opc_fload = 23

abbrev pub opc_dload : ℕ
opc_dload = 24

abbrev pub opc_aload : ℕ
opc_aload = 25

abbrev pub opc_iload_0 : ℕ
opc_iload_0 = 26

abbrev pub opc_iload_1 : ℕ
opc_iload_1 = 27

abbrev pub opc_iload_2 : ℕ
opc_iload_2 = 28

abbrev pub opc_iload_3 : ℕ
opc_iload_3 = 29

abbrev pub opc_lload_0 : ℕ
opc_lload_0 = 30

abbrev pub opc_lload_1 : ℕ
opc_lload_1 = 31

abbrev pub opc_lload_2 : ℕ
opc_lload_2 = 32

abbrev pub opc_lload_3 : ℕ
opc_lload_3 = 33

abbrev pub opc_fload_0 : ℕ
opc_fload_0 = 34

abbrev pub opc_fload_1 : ℕ
opc_fload_1 = 35

abbrev pub opc_fload_2 : ℕ
opc_fload_2 = 36

abbrev pub opc_fload_3 : ℕ
opc_fload_3 = 37

abbrev pub opc_dload_0 : ℕ
opc_dload_0 = 38

abbrev pub opc_dload_1 : ℕ
opc_dload_1 = 39

abbrev pub opc_dload_2 : ℕ
opc_dload_2 = 40

abbrev pub opc_dload_3 : ℕ
opc_dload_3 = 41

abbrev pub opc_aload_0 : ℕ
opc_aload_0 = 42

abbrev pub opc_aload_1 : ℕ
opc_aload_1 = 43

abbrev pub opc_aload_2 : ℕ
opc_aload_2 = 44

abbrev pub opc_aload_3 : ℕ
opc_aload_3 = 45

abbrev pub opc_iaload : ℕ
opc_iaload = 46

abbrev pub opc_laload : ℕ
opc_laload = 47

abbrev pub opc_faload : ℕ
opc_faload = 48

abbrev pub opc_daload : ℕ
opc_daload = 49

abbrev pub opc_aaload : ℕ
opc_aaload = 50

abbrev pub opc_baload : ℕ
opc_baload = 51

abbrev pub opc_caload : ℕ
opc_caload = 52

abbrev pub opc_saload : ℕ
opc_saload = 53
