-- ===== src/Buffer/Overflow.antt =====
-- Pages whose offsets are no `int`s: src/system/file_manager.cc computes them for `get_page` of
-- src/system/buffer_manager.cc.
