-- ===== src/Shell/Main/Fresh.antt =====
-- `ufs mkfs` and then `ufs mount`, as two runs of the program.
