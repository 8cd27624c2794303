-- ===== src/Static.antt =====
-- viewengine_static.go: the files of the directory `public`.
mod Defs
mod Tests
